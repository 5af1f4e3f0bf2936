-- ===== src/GatewayProtocol/Negotiation/Versions.antt =====
-- crates/gateway-protocol/src/negotiation.rs: which version is selected, and that a client notices any
-- other.
use vpn_ne_vpn.Prelude.{◌≤◌, ◌≡◌, ◌↔◌, ok, arith, Result-cases, inl, inr, min}
use vpn_ne_vpn.GatewayProtocol.Negotiation.{
  ProtocolVersion, ProtocolVersionRange, Bounds, version, validate_version_range, select_version,
  verify_server_selection,
}

-- The range is well formed and admits the version.
abbrev pub Admits : ProtocolVersionRange → ProtocolVersion → Type 0
Admits r v =
    (b : Bounds) × (validate_version_range r ≡ ok b)
    × (b.major ≡ v.major)
    × (b.lowest ≤ v.minor)
    × (v.minor ≤ b.highest)

-- A version that both ranges admit and that no other such version exceeds.
abbrev pub IsBest : ProtocolVersionRange → ProtocolVersionRange → ProtocolVersion → Type 0
IsBest c s v =
    Admits c v
    × Admits s v
    × ((w : ProtocolVersion) → Admits c w → Admits s w → (w.major ≡ v.major) × (w.minor ≤ v.minor))

selected-IsBest :
    (c s : ProtocolVersionRange) (v : ProtocolVersion) → select_version c s ≡ ok v → IsBest c s v
unfolding select_version
selected-IsBest c s v h = elim (Result-cases (validate_version_range c)) [
  | inl (e, hc) ↦ absurd (ground arith)
  | inr (b, hc) ↦ elim (Result-cases (validate_version_range s)) [
    | inl (e, hs) ↦ absurd (ground arith)
    | inr (d, hs) ↦ (
      (b, hc, ground arith, ground arith, ground arith),
      (d, hs, ground arith, ground arith, ground arith),
      λ w x y. ground arith,
    )
  ]
]

best_selected :
    (c s : ProtocolVersionRange) (v : ProtocolVersion) → IsBest c s v → select_version c s ≡ ok v
unfolding select_version
best_selected c s v ((b, hb, mb, lb, ub), (d, hd, md, ld, ud), best) =
    let top = min b.highest d.highest in
    let highest =
      best (version v.major top) (b, hb, mb, omega arith, omega arith)
        (d, hd, md, omega arith, omega arith) in
    ground (arith, highest.1)

-- A version is selected exactly if it is the highest that both ranges admit, each of them well formed.
pub select_version_iff :
    (c s : ProtocolVersionRange) (v : ProtocolVersion) → (select_version c s ≡ ok v) ↔ IsBest c s v
select_version_iff c s v = (selected-IsBest c s v, best_selected c s v)

-- The choice does not depend on which side makes it.
pub select_version_symmetric :
    (c s : ProtocolVersionRange) (v : ProtocolVersion)
    → select_version c s ≡ ok v
    → select_version s c ≡ ok v
unfolding select_version
select_version_symmetric c s v h = elim (Result-cases (validate_version_range c)) [
  | inl (e, hc) ↦ absurd (ground arith)
  | inr (b, hc) ↦ elim (Result-cases (validate_version_range s)) [
    | inl (e, hs) ↦ absurd (ground arith)
    | inr (d, hs) ↦ ground arith
  ]
]

-- The client accepts the server's answer exactly if it is the version that the two ranges select: a
-- silently lower one is refused.
pub verify_server_selection_iff :
    (c s : ProtocolVersionRange) (v : ProtocolVersion)
    → (verify_server_selection c s v ≡ ok tt) ↔ (select_version c s ≡ ok v)
unfolding verify_server_selection
verify_server_selection_iff c s v = elim (Result-cases (select_version c s)) [
  | inl (e, h) ↦ (λ k. ground arith, λ k. ground arith)
  | inr (w, h) ↦ (λ k. ground arith, λ k. ground arith)
]
