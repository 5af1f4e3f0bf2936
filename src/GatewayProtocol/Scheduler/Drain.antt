-- ===== src/GatewayProtocol/Scheduler/Drain.antt =====
-- crates/gateway-protocol/src/scheduler.rs: how many frames are queued.
use vpn_ne_vpn.Prelude.{
  ℕ, ◌+◌, ◌≡◌, refl, ap, Option, some, none, List, [], ◌∷◌, null, length, arith, true,
}
use vpn_ne_vpn.Prelude.Maps.{lookup, nat_eq, total, total-insert, total-remove}
use vpn_ne_vpn.GatewayProtocol.Scheduler.{
  OutboundItem, FairScheduler, pop_control, pop_stream, pop_active, settle, pop_next,
}
use vpn_ne_vpn.GatewayProtocol.Scheduler.Invariant.{IsValid}
use vpn_ne_vpn.GatewayProtocol.Scheduler.Dequeue.{front}
use vpn_ne_vpn.GatewayProtocol.Scheduler.Runs.{pop_next-none_iff}

abbrev pub taken : {A : Type 0} → Option A → ℕ
taken none = 0
taken (some a) = 1

not_taken : {A : Type 0} (i : Option A) → taken i ≡ 0 → i ≡ none
not_taken none h = refl
not_taken (some a) h = absurd (omega (arith, h))

module _ {Body : Type 0} where
  abbrev pub frames : FairScheduler Body → ℕ
  frames s = length s.control + total length s.streams

  null-length : (q : List (OutboundItem Body)) → null q ≡ true → length q ≡ 0
  null-length [] h = refl
  null-length (x ∷ q) h = cc h

  pop_control-frames :
      (b : ℕ) (c : List (OutboundItem Body)) (s : FairScheduler Body)
      → s.control ≡ c
      → frames (pop_control s b c).0 + taken (pop_control s b c).1 ≡ frames s
  unfolding pop_control
  pop_control-frames b [] s e = omega arith
  pop_control-frames b (x ∷ c) s e = ground (arith, ap length e)

  settle-frames :
      (id : ℕ) (item : OutboundItem Body) (q : List (OutboundItem Body)) (s : FairScheduler Body)
      → IsValid s
      → (rest : List ℕ) → lookup id s.streams ≡ some (item ∷ q)
      → frames (settle (record s { active = rest }) id item q) + 1 ≡ frames s
  unfolding settle
  settle-frames id item q s v rest e = ground (
    arith,
    e,
    null-length q,
    total-insert length id q s.streams,
    total-remove length id s.streams v.distinct,
  )

  pop_active-frames :
      (xs : List ℕ) (s : FairScheduler Body)
      → IsValid s
      → s.active ≡ xs
      → frames (pop_active s xs).0 + taken (pop_active s xs).1 ≡ frames s
  unfolding pop_active pop_stream
  pop_active-frames [] s v e = pop_control-frames s.control_burst s.control s refl
  pop_active-frames (id ∷ rest) s v e =
      let (item, q, found) = front id rest s v e in
      rw (found, pop_stream) (settle-frames id item q s v rest found)

  -- A frame that is taken is one less in the queues, and no other is lost.
  pub pop_next-frames :
      (s : FairScheduler Body) → IsValid s → frames (pop_next s).0 + taken (pop_next s).1 ≡ frames s
  unfolding pop_next
  pop_next-frames s v = ground (
    arith,
    pop_control-frames (s.control_burst + 1) s.control s refl,
    pop_active-frames s.active s v refl,
  )

  -- Nothing is taken only where nothing is queued.
  pub pop_next-idle : (s : FairScheduler Body) → IsValid s → taken (pop_next s).1 ≡ 0 → frames s ≡ 0
  pop_next-idle s v h =
      let empty = (pop_next-none_iff s v).0 (not_taken (pop_next s).1 h) in
      ground (arith, empty.0, empty.1)
