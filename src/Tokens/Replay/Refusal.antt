-- ===== src/Tokens/Replay/Refusal.antt =====
-- crates/auth-tokens/src/replay.rs: a redemption is accepted once.
use vpn_ne_vpn.Prelude.{
  ℕ, min, ◌≤◌, ◌<◌, ◌≡◌, ◌≢◌, ◌⊎◌, refl, subst, true, false, ◌||◌, leb, ◌==◌, ok, err, some, List,
  [], ◌∷◌, ◌++◌, length, null, unwrap_or, arith, Bool-cases, Option-cases, inl, inr,
}
use vpn_ne_vpn.Prelude.Maps.{lookup, insert, nat_eq, lookup-insert, lookup-remove}
use vpn_ne_vpn.Prelude.Members.{member, retain_ne, member-append, member-retain_ne}
use vpn_ne_vpn.Tokens.Replay.{
  TokenReservation, SessionLease, TokenSessions, Store, already_reserved, retain_live, reserve,
  release,
}

pub data Op : Type 0 where
  reserves : TokenReservation → Op
  releases : SessionLease → Op

unfoldable pub perform : Op → Store → Store
perform (reserves r) m = (reserve r m).0
perform (releases l) m = release l m

unfoldable pub run : Store → List Op → Store
unfolding perform
run m [] = m
run m (o ∷ os) = run (perform o m) os

-- The calls before the time `until` that do not release the session, nor shorten its token's life to
-- before `until`.
abbrev pub Keeps : ℕ → ℕ → ℕ → Op → Type 0
Keeps token session until (reserves r) =
    (r.now < until) × ((r.token_id ≢ token) ⊎ (until ≤ r.expires_at))
Keeps token session until (releases l) = (l.token_id ≢ token) ⊎ (l.session_id ≢ session)

abbrev pub AllKeep : ℕ → ℕ → ℕ → List Op → Type 0
AllKeep token session until [] = Unit {0}
AllKeep token session until (o ∷ os) = Keeps token session until o × AllKeep token session until os

-- The token holds the session until the time.
abbrev pub Holds : ℕ → ℕ → ℕ → Store → Type 0
Holds token session until m =
    (s : TokenSessions) × (lookup token m ≡ some s)
    × (member session s.sessions ≡ true)
    × (until ≤ s.expires_at)

lookup-retain_live :
    (now id : ℕ) (m : Store) (s : TokenSessions)
    → lookup id m ≡ some s
    → now < s.expires_at
    → lookup id (retain_live now m) ≡ some s
unfolding retain_live
lookup-retain_live now id [] s h l = absurd (ground arith)
lookup-retain_live now id ((j, t) ∷ m) s h l = ground (arith, lookup-retain_live now id m s)

null-member : (a : ℕ) (xs : List ℕ) → member a xs ≡ true → null xs ≡ false
null-member a [] h = absurd (ground arith)
null-member a (x ∷ xs) h = refl

insert-Holds :
    (token session until id : ℕ) (t : TokenSessions) (m : Store)
    → Holds token session until m
    → (id ≡ token → (member session t.sessions ≡ true) × (until ≤ t.expires_at))
    → Holds token session until (insert id t m)
insert-Holds token session until id t m (s, l, h, u) f = elim (Bool-cases (id == token)) [
  | inl e ↦ let g = f (ground arith) in (t, ground (arith, lookup-insert id token t m), g.0, g.1)
  | inr e ↦ (s, ground (arith, lookup-insert id token t m), h, u)
]

reserve-Holds :
    (token session until : ℕ) (r : TokenReservation) (m : Store)
    → Keeps token session until (reserves r)
    → Holds token session until m
    → Holds token session until (reserve r m).0
unfolding reserve
reserve-Holds token session until r m k (s, l, h, u) =
    let live = retain_live r.now m in
    let found : TokenSessions =
      unwrap_or (lookup r.token_id live) (record { expires_at = r.expires_at; sessions = [] }) in
    let state : TokenSessions = record found { expires_at = min found.expires_at r.expires_at } in
    let still = lookup-retain_live r.now token m s l (omega arith) in
    let held : Holds token session until live = (s, still, h, u) in
    let one =
      insert-Holds token session until r.token_id state live held
        (λ q. (ground arith, ground arith)) in
    let two =
      insert-Holds token session until r.token_id
        (record state { sessions = state.sessions ++ (r.session_id ∷ []) }) live held
        (λ q. (
          ground (arith, member-append session state.sessions (r.session_id ∷ [])),
          ground arith,
        )) in
    elim (Bool-cases
      (member r.session_id state.sessions || leb r.max_active_sessions (length state.sessions))) [
        | inl e ↦ subst (Holds token session until) (ground arith) one
        | inr e ↦ subst (Holds token session until) (ground arith) two
      ]

release-Holds :
    (token session until : ℕ) (lease : SessionLease) (m : Store)
    → Keeps token session until (releases lease)
    → Holds token session until m
    → Holds token session until (release lease m)
unfolding release
release-Holds token session until lease m k (s, l, h, u) =
    elim (Option-cases (lookup lease.token_id m)) [
      | inl e ↦ (s, ground arith, h, u)
      | inr (t, e) ↦
          let left : TokenSessions = record t {
            sessions = retain_ne lease.session_id t.sessions;
          } in
          let mine : lease.token_id ≡ token
              → (member session left.sessions ≡ true) × (until ≤ left.expires_at) =
            λ q. (
              ground (arith, member-retain_ne lease.session_id session t.sessions),
              ground arith,
            ) in
          elim (Bool-cases (null left.sessions)) [
            | inl n ↦ (
              s,
              ground (
                arith,
                null-member session left.sessions,
                mine,
                lookup-remove lease.token_id token m,
              ),
              h,
              u,
            )
            | inr n ↦
                subst (Holds token session until) (ground arith)
                  (insert-Holds token session until lease.token_id left m (s, l, h, u) mine)
          ]
    ]

run-Holds :
    (token session until : ℕ) (os : List Op) (m : Store)
    → AllKeep token session until os
    → Holds token session until m
    → Holds token session until (run m os)
unfolding run
run-Holds token session until [] m k h = h
run-Holds token session until (reserves r ∷ os) m k h =
    run-Holds token session until os (reserve r m).0 k.1
      (reserve-Holds token session until r m k.0 h)
run-Holds token session until (releases l ∷ os) m k h =
    run-Holds token session until os (release l m) k.1 (release-Holds token session until l m k.0 h)

held_refused :
    (token session until : ℕ) (r : TokenReservation) (m : Store)
    → Holds token session until m
    → r.token_id ≡ token
    → r.session_id ≡ session
    → r.now < until
    → (reserve r m).1 ≡ err already_reserved
unfolding reserve
held_refused token session until r m (s, l, h, u) a b c =
    ground (arith, lookup-retain_live r.now token m s l)

accepted-Holds :
    (r : TokenReservation) (m : Store) (lease : SessionLease) (s : TokenSessions)
    → (reserve r m).1 ≡ ok lease
    → lookup r.token_id (reserve r m).0 ≡ some s
    → Holds r.token_id r.session_id s.expires_at (reserve r m).0
unfolding reserve
accepted-Holds r m lease s h l =
    let live = retain_live r.now m in
    let found : TokenSessions =
      unwrap_or (lookup r.token_id live) (record { expires_at = r.expires_at; sessions = [] }) in
    let state : TokenSessions = record {
      expires_at = min found.expires_at r.expires_at;
      sessions = found.sessions ++ (r.session_id ∷ []);
    } in
    (
      s,
      l,
      ground (
        arith,
        lookup-insert r.token_id r.token_id state live,
        member-append r.session_id found.sessions (r.session_id ∷ []),
      ),
      omega arith,
    )

-- A redemption that was accepted is not accepted again before the expiry that the store then has for
-- its token, whatever is reserved and released in between, if its session is not released and no
-- reservation in between is late or shortens the life of the token.
pub replay_refused :
    (r again : TokenReservation) (m : Store) (lease : SessionLease) (s : TokenSessions)
    (os : List Op)
    → (reserve r m).1 ≡ ok lease
    → lookup r.token_id (reserve r m).0 ≡ some s
    → AllKeep r.token_id r.session_id s.expires_at os
    → again.token_id ≡ r.token_id
    → again.session_id ≡ r.session_id
    → again.now < s.expires_at
    → (reserve again (run (reserve r m).0 os)).1 ≡ err already_reserved
replay_refused r again m lease s os h l k a b c =
    held_refused r.token_id r.session_id s.expires_at again (run (reserve r m).0 os)
      (run-Holds r.token_id r.session_id s.expires_at os (reserve r m).0 k
        (accepted-Holds r m lease s h l))
      a b c
