-- ===== src/Multihop/Quota/Bandwidth.antt =====
-- crates/gateway-multihop/src/quota.rs: the bytes that an entry may send in a time.
use native.Mathlib.Nat.{mul-add}
use vpn_ne_vpn.Prelude.{
  sym, ap, ◌∙◌, ℕ, ◌+◌, ◌-◌, ◌*◌, ◌≤◌, ◌≡◌, if◌then◌else◌, is_ok, some, List, [], ◌∷◌, String,
  arith,
}
use vpn_ne_vpn.Prelude.Maps.{lookup, string_eq, lookup-insert}
use vpn_ne_vpn.Multihop.Quota.{
  EntryQuotaLimits, EntryState, EntryQuotaManager, set_entry, charge_bytes, refill,
}

-- The bytes of the charges that the quota accepts; each charge is its bytes and its time.
unfoldable pub accepted : String → EntryQuotaManager → List (ℕ × ℕ) → ℕ
accepted id m [] = 0
accepted id m ((n, now) ∷ cs) =
    let rest = accepted id (charge_bytes id n now m).0 cs in
    if is_ok (charge_bytes id n now m).1 then n + rest else rest

abbrev pub AllBefore : ℕ → List (ℕ × ℕ) → Type 0
AllBefore t [] = Unit {0}
AllBefore t ((n, now) ∷ cs) = (now ≤ t) × AllBefore t cs

split_rate : (r a b c : ℕ) → a ≤ b → b ≤ c → r * (b - a) + r * (c - b) ≡ r * (c - a)
split_rate r a b c h k = sym (mul-add r (b - a) (c - b)) ∙ ap (λ x. r * x) (omega arith)

-- What a bucket may still give until a time: its bytes and the refills until then.
refill_budget :
    (l : EntryQuotaLimits) (now t : ℕ) (s : EntryState)
    → now ≤ t
    → s.last_refill ≤ t
    → ((refill l now s).available_bytes * 1000000000
          + l.bytes_per_second * (t - (refill l now s).last_refill)
        ≤ s.available_bytes * 1000000000 + l.bytes_per_second * (t - s.last_refill))
      × ((refill l now s).last_refill ≤ t)
unfolding refill
refill_budget l now t s h k = ground (arith, split_rate l.bytes_per_second s.last_refill now t)

-- Whatever is charged to an entry while it stands in the table, and whenever: the bytes accepted until
-- the time `t` are at most those in its bucket plus its rate times the time since its last refill.
pub accepted-le :
    (id : String) (t : ℕ) (cs : List (ℕ × ℕ)) (m : EntryQuotaManager) (s : EntryState)
    → lookup id m.entries ≡ some s
    → s.last_refill ≤ t
    → AllBefore t cs
    → accepted id m cs * 1000000000
      ≤ s.available_bytes * 1000000000 + m.limits.bytes_per_second * (t - s.last_refill)
unfolding accepted charge_bytes
accepted-le id t [] m s l h b = omega arith
accepted-le id t ((n, now) ∷ cs) m s l h b =
    let f = refill m.limits now s in
    let g = record f { available_bytes = f.available_bytes - n } in
    ground (
      arith,
      refill_budget m.limits now t s b.0 h,
      string_eq.beq_iff id id,
      lookup-insert id id f m.entries,
      lookup-insert id id g m.entries,
      accepted-le id t cs (set_entry id f m) f,
      accepted-le id t cs (set_entry id g m) g,
    )
