-- ===== src/GatewayProtocol/Scheduler/Enqueue.antt =====
-- crates/gateway-protocol/src/scheduler.rs: a frame that is queued keeps the books of the scheduler.
use vpn_ne_vpn.Prelude.{
  ℕ, ◌+◌, ◌≤◌, ◌≡◌, true, false, if◌then◌else◌, List, [], ◌∷◌, ◌++◌, length-append, null, arith,
  Option-cases, inl, inr, unwrap_or,
}
use vpn_ne_vpn.Prelude.Maps.{
  lookup, insert, nat_eq, is_some, insert-Entries, lookup-Entries, insert-Distinct, lookup-insert,
  total-insert, weight,
}
use vpn_ne_vpn.Prelude.Members.{member, member-append, append-Once}
use vpn_ne_vpn.GatewayProtocol.Scheduler.{
  OutboundItem, FairScheduler, enqueue_control, enqueue_stream,
}
use vpn_ne_vpn.GatewayProtocol.Scheduler.Invariant.{
  bytes, bytes-append, queue_bytes, IsQueue, IsValid,
}

module _ {Body : Type 0} where
  pub enqueue_control-IsValid :
      (item : OutboundItem Body) (s : FairScheduler Body)
      → IsValid s
      → IsValid (enqueue_control item s).0
  unfolding enqueue_control
  enqueue_control-IsValid item s v = ground (
    arith,
    bytes-append s.control (item ∷ []),
    length-append s.control (item ∷ []),
    v.per_stream,
    v.listed,
  )

  -- The state that `enqueue_stream` leaves when it succeeds.
  abbrev pushed : ℕ → OutboundItem Body → FairScheduler Body → FairScheduler Body
  pushed id item s =
      let queue = unwrap_or (lookup id s.streams) [] in
      record s {
        active = if null queue then s.active ++ (id ∷ []) else s.active;
        streams = insert id (queue ++ (item ∷ [])) s.streams;
        per_stream_bytes =
            insert id (unwrap_or (lookup id s.per_stream_bytes) 0 + item.accounted_bytes)
              s.per_stream_bytes;
        queued_bytes = s.queued_bytes + item.accounted_bytes;
      }

  module _ (id : ℕ) (item : OutboundItem Body) (s : FairScheduler Body) (v : IsValid s) where
    queue : List (OutboundItem Body)
    queue = unwrap_or (lookup id s.streams) []

    -- What is known of the stream before the frame: the bytes on its account, and its place in `active`.
    account : unwrap_or (lookup id s.per_stream_bytes) 0 ≡ bytes queue
    unfolding queue
    account = elim (Option-cases (lookup id s.streams)) [
      | inl e ↦ ground (arith, v.per_stream id)
      | inr (q, e) ↦ ground (arith, v.per_stream id)
    ]

    weight-queue : weight bytes (lookup id s.streams) ≡ bytes queue
    unfolding queue
    weight-queue = elim (Option-cases (lookup id s.streams)) [
      | inl e ↦ ground arith
      | inr (q, e) ↦ ground arith
    ]

    member-active : member id s.active ≡ (if null queue then false else true)
    unfolding queue
    member-active = elim (Option-cases (lookup id s.streams)) [
      | inl e ↦ ground (arith, v.listed id)
      | inr (q, e) ↦ ground (
        arith,
        v.listed id,
        lookup-Entries (IsQueue s.maximum_queued_bytes_per_stream) id q s.streams v.queues e,
      )
    ]

    held-push : null (queue ++ (item ∷ [])) ≡ false
    unfolding queue
    held-push = elim (Option-cases (lookup id s.streams)) [
      | inl e ↦ ground arith
      | inr (q, e) ↦ ground (
        arith,
        lookup-Entries (IsQueue s.maximum_queued_bytes_per_stream) id q s.streams v.queues e,
      )
    ]

    pushed-listed :
        (j : ℕ)
        → member j (if null queue then s.active ++ (id ∷ []) else s.active)
          ≡ is_some (lookup j (insert id (queue ++ (item ∷ [])) s.streams))
    pushed-listed j = ground (
      arith,
      member-active,
      v.listed j,
      member-append j s.active (id ∷ []),
      lookup-insert id j (queue ++ (item ∷ [])) s.streams,
    )

    pushed-per_stream :
        (j : ℕ)
        → lookup j (
            insert id
              (unwrap_or (lookup id s.per_stream_bytes) 0 + item.accounted_bytes)
              s.per_stream_bytes)
          ≡ queue_bytes (lookup j (insert id (queue ++ (item ∷ [])) s.streams))
    pushed-per_stream j = ground (
      arith,
      account,
      v.per_stream j,
      bytes-append queue (item ∷ []),
      lookup-insert id j (queue ++ (item ∷ [])) s.streams,
      lookup-insert id j (unwrap_or (lookup id s.per_stream_bytes) 0 + item.accounted_bytes)
          s.per_stream_bytes,
    )

    pushed-IsValid :
        s.queued_bytes + item.accounted_bytes ≤ s.maximum_queued_bytes
        → unwrap_or (lookup id s.per_stream_bytes) 0 + item.accounted_bytes
          ≤ s.maximum_queued_bytes_per_stream
        → IsValid (pushed id item s)
    unfolding queue
    pushed-IsValid a b = record {
      machine = v.machine;
      accounted = ground (
        arith,
        v.accounted,
        total-insert bytes id (queue ++ (item ∷ [])) s.streams,
        weight-queue,
        bytes-append queue (item ∷ []),
      );
      bounded = a;
      control_bounded = v.control_bounded;
      queues =
          insert-Entries (IsQueue s.maximum_queued_bytes_per_stream) id (queue ++ (item ∷ []))
            s.streams v.queues
            (record {
              held = held-push;
              fits = omega (arith, b, account, bytes-append queue (item ∷ []));
            });
      distinct = insert-Distinct id (queue ++ (item ∷ [])) s.streams v.distinct;
      per_stream = pushed-per_stream;
      once = ground (arith, member-active, append-Once id s.active v.once);
      listed = pushed-listed;
    }

    pub enqueue_stream-IsValid : IsValid (enqueue_stream id item s).0
    unfolding enqueue_stream
    enqueue_stream-IsValid = ground (arith, pushed-IsValid)
