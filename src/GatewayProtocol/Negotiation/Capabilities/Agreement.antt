-- ===== src/GatewayProtocol/Negotiation/Capabilities/Agreement.antt =====
-- crates/gateway-protocol/src/negotiation.rs: what the server enables, the client accepts.
use vpn_ne_vpn.Prelude.{
  ◌≤◌, ◌≡◌, refl, subst, Bool, true, false, not, ok, none, List, [], ◌∷◌, length, any, all, String,
  arith, Bool-cases, Option-cases, Result-cases, inl, inr,
}
use vpn_ne_vpn.Prelude.Maps.{string_eq}
use vpn_ne_vpn.Prelude.Sets.{contains, collect, AreDistinct, contains-collect, collect_distinct}
use vpn_ne_vpn.Prelude.Texts.{strip_prefix, is_ascii, all_bytes-strip_prefix, len-strip_prefix-le}
use vpn_ne_vpn.GatewayProtocol.Negotiation.Capabilities.{
  plain_name, is_name_byte, is_capability, validate_capabilities, negotiate_from,
  negotiate_capabilities, names, is_missing, verify_enabled_capabilities,
}

-- No name that the server supports starts with `required:`.
abbrev pub ArePlain : List String → Type 0
ArePlain [] = Unit {0}
ArePlain (s ∷ ss) = (strip_prefix "required:" s ≡ none) × ArePlain ss

supported_plain :
    (supported : List String) (n : String)
    → ArePlain supported
    → contains supported n ≡ true
    → strip_prefix "required:" n ≡ none
supported_plain [] n a h = absurd (ground arith)
supported_plain (s ∷ ss) n a h = ground (arith, string_eq.beq_iff s n, supported_plain ss n a.1)

plain_capability :
    (value : String)
    → is_capability value ≡ true
    → strip_prefix "required:" (plain_name value) ≡ none
    → is_capability (plain_name value) ≡ true
unfolding is_capability
plain_capability value h p = elim (Option-cases (strip_prefix "required:" value)) [
  | inl e ↦ ground arith
  | inr (t, e) ↦ ground (
    arith,
    all_bytes-strip_prefix is_ascii "required:" value t e,
    all_bytes-strip_prefix is_name_byte "required:" value t e,
    len-strip_prefix-le "required:" value t e,
  )
]

-- What the loop yields from the names met before.
record IsAgreed (supported met requested enabled : List String) : Type 0 where
  shorter : length enabled ≤ length requested
  distinct : AreDistinct enabled
  new : (n : String) → contains met n ≡ true → contains enabled n ≡ false
  asked : (n : String) → contains enabled n ≡ true → contains (names requested) n ≡ true
  complete : any (is_missing enabled) requested ≡ false
  valid : all is_capability requested ≡ true → all is_capability enabled ≡ true

-- A value that was granted stays granted when another is added.
missing-cons :
    (n : String) (enabled requested : List String)
    → any (is_missing enabled) requested ≡ false
    → any (is_missing (n ∷ enabled)) requested ≡ false
missing-cons n enabled [] h = refl
missing-cons n enabled (v ∷ vs) h = ground (arith, missing-cons n enabled vs)

negotiate_from-IsAgreed :
    (supported met requested enabled : List String)
    → ArePlain supported
    → negotiate_from supported met requested ≡ ok enabled
    → IsAgreed supported met requested enabled
unfolding negotiate_from
negotiate_from-IsAgreed supported met [] enabled p h =
    let same : [] ≡ enabled = ground arith in
    subst (IsAgreed supported met []) same (record {
      shorter = omega arith;
      distinct = tt;
      new = λ n c. refl;
      asked = λ n c. absurd (ground arith);
      complete = refl;
      valid = λ v. refl;
    })
negotiate_from-IsAgreed supported met (value ∷ requested) enabled p h =
    let n = plain_name value in
    elim (Result-cases (negotiate_from supported (n ∷ met) requested)) [
      | inl (e, r) ↦ absurd (ground arith)
      | inr (rest, r) ↦
          let i = negotiate_from-IsAgreed supported (n ∷ met) requested rest p r in
          elim (Bool-cases (contains supported n)) [
            | inl s ↦
                (let same : n ∷ rest ≡ enabled = ground arith in
                  subst (IsAgreed supported met (value ∷ requested)) same (record {
                    shorter = ground (arith, i.shorter);
                    distinct = (i.new n (ground (arith, string_eq.beq_iff n n)), i.distinct);
                    new = λ m c. ground (arith, string_eq.beq_iff n m, i.new m);
                    asked = λ m c. ground (arith, i.asked m);
                    complete =
                        ground
                          (arith, string_eq.beq_iff n n, missing-cons n rest requested i.complete);
                    valid = λ v.
                        ground
                          (arith, i.valid, plain_capability value, supported_plain supported n p s);
                  }))
            | inr s ↦
                let same : rest ≡ enabled = ground arith in
                subst (IsAgreed supported met (value ∷ requested)) same (record {
                  shorter = ground (arith, i.shorter);
                  distinct = i.distinct;
                  new = λ m c. ground (arith, i.new m);
                  asked = λ m c. ground (arith, i.asked m);
                  complete = ground (arith, i.complete);
                  valid = λ v. ground (arith, i.valid);
                })
          ]
    ]

any-false :
    (f : String → Bool) (xs : List String)
    → ((a : String) → contains xs a ≡ true → f a ≡ false)
    → any f xs ≡ false
any-false f [] h = refl
any-false f (x ∷ xs) h =
    let first = h x (ground (arith, string_eq.beq_iff x x)) in
    let later = any-false f xs (λ a c. h a (ground arith)) in ground arith

missing-collect :
    (enabled requested : List String)
    → any (is_missing enabled) requested ≡ false
    → any (is_missing (collect enabled)) requested ≡ false
missing-collect enabled [] h = refl
missing-collect enabled (v ∷ vs) h =
    ground (arith, contains-collect enabled (plain_name v), missing-collect enabled vs)

-- Where no capability of the server is named with `required:`, the client accepts what the server
-- enables: the names it chose were asked for, stand once and are well formed, and none that the client
-- requires is missing.
pub verify-negotiate :
    (requested supported enabled : List String)
    → ArePlain supported
    → negotiate_capabilities requested supported ≡ ok enabled
    → verify_enabled_capabilities requested enabled ≡ ok tt
unfolding negotiate_capabilities verify_enabled_capabilities validate_capabilities
verify-negotiate requested supported enabled p h =
    elim (Result-cases (negotiate_from supported [] requested)) [
      | inl (e, r) ↦ absurd (ground arith)
      | inr (rest, r) ↦
          let same : rest ≡ enabled = ground arith in
          let i = negotiate_from-IsAgreed supported [] requested enabled p (ground arith) in
          let asked =
            any-false (λ name. not (contains (collect (names requested)) name)) (collect enabled)
              (λ a c. ground (
                arith,
                contains-collect (names requested) a,
                contains-collect enabled a,
                i.asked a,
              )) in
          ground (
            arith,
            i.shorter,
            i.valid,
            collect_distinct enabled i.distinct,
            missing-collect enabled requested i.complete,
          )
    ]
