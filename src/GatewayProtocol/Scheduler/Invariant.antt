-- ===== src/GatewayProtocol/Scheduler/Invariant.antt =====
-- crates/gateway-protocol/src/scheduler.rs: the books of the scheduler balance.
use vpn_ne_vpn.Prelude.{
  ℕ, ◌+◌, ◌≤◌, ◌≡◌, false, u64_max, ok, Option, some, none, List, [], ◌∷◌, ◌++◌, length, null,
  arith,
}
use vpn_ne_vpn.Prelude.Maps.{lookup, nat_eq, is_some, Entries, Distinct, total}
use vpn_ne_vpn.Prelude.Members.{member, Once}
use vpn_ne_vpn.GatewayProtocol.Scheduler.{OutboundItem, FairScheduler, new, saturating_bytes}

module _ {Body : Type 0} where
  -- The bytes of a queue.
  abbrev pub bytes : List (OutboundItem Body) → ℕ
  bytes [] = 0
  bytes (item ∷ queue) = item.accounted_bytes + bytes queue

  pub bytes-append : (xs ys : List (OutboundItem Body)) → bytes (xs ++ ys) ≡ bytes xs + bytes ys
  bytes-append [] ys = omega arith
  bytes-append (x ∷ xs) ys = omega (arith, bytes-append xs ys)

  pub saturating_bytes_lem :
      (n : ℕ) (xs : List (OutboundItem Body))
      → n + bytes xs ≤ u64_max
      → saturating_bytes n xs ≡ n + bytes xs
  saturating_bytes_lem n [] h = omega arith
  saturating_bytes_lem n (x ∷ xs) h =
      ground (arith, saturating_bytes_lem (n + x.accounted_bytes) xs)

  abbrev pub queue_bytes : Option (List (OutboundItem Body)) → Option ℕ
  queue_bytes none = none
  queue_bytes (some q) = some (bytes q)

  -- A stream in the map has a frame, and no more bytes than a stream may have.
  pub record IsQueue (maximum id : ℕ) (q : List (OutboundItem Body)) : Type 0 where
    pub held : null q ≡ false
    pub fits : bytes q ≤ maximum

  pub record IsValid (s : FairScheduler Body) : Type 0 where
    pub machine : s.maximum_queued_bytes ≤ u64_max
    pub accounted : s.queued_bytes ≡ bytes s.control + total bytes s.streams
    pub bounded : s.queued_bytes ≤ s.maximum_queued_bytes
    pub control_bounded : length s.control ≤ s.maximum_control_frames
    pub queues : Entries (IsQueue s.maximum_queued_bytes_per_stream) s.streams
    pub distinct : Distinct s.streams
    pub per_stream : (id : ℕ) → lookup id s.per_stream_bytes ≡ queue_bytes (lookup id s.streams)
    pub once : Once s.active
    pub listed : (id : ℕ) → member id s.active ≡ is_some (lookup id s.streams)

  pub new-IsValid :
      (m p c : ℕ) (s : FairScheduler Body) → m ≤ u64_max → new m p c ≡ ok s → IsValid s
  unfolding new
  new-IsValid m p c s u h = ground arith
