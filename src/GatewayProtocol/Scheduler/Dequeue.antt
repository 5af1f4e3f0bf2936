-- ===== src/GatewayProtocol/Scheduler/Dequeue.antt =====
-- crates/gateway-protocol/src/scheduler.rs: a frame that leaves, and a stream that is cancelled, keep the
-- books of the scheduler.
use vpn_ne_vpn.Prelude.{
  ℕ, ◌+◌, ◌-◌, ◌≤◌, ◌≡◌, refl, ap, subst, true, false, ◌||◌, ◌==◌, some, List, [], ◌∷◌, length,
  null, arith, Bool-cases, Option-cases, inl, inr, unwrap_or,
}
use vpn_ne_vpn.Prelude.Maps.{
  lookup, remove, nat_eq, is_some, insert-Entries, remove-Entries, lookup-Entries, insert-Distinct,
  remove-Distinct, lookup-insert, lookup-remove, total, total-insert, total-remove,
}
use vpn_ne_vpn.Prelude.Members.{
  member, Once, member-append, append-Once, member-retain_ne, retain_ne-Once,
}
use vpn_ne_vpn.GatewayProtocol.Scheduler.{
  OutboundItem, FairScheduler, pop_control, pop_stream, pop_active, settle, pop_next, cancel_stream,
}
use vpn_ne_vpn.GatewayProtocol.Scheduler.Invariant.{bytes, saturating_bytes_lem, IsQueue, IsValid}

module _ {Body : Type 0} where
  -- The id at the front of `active` has a frame.
  pub front :
      (id : ℕ) (rest : List ℕ) (s : FairScheduler Body)
      → IsValid s
      → s.active ≡ id ∷ rest
      → (item : OutboundItem Body) × (q : List (OutboundItem Body)) × (lookup id s.streams
          ≡ some (item ∷ q))
  front id rest s v e = elim (Option-cases (lookup id s.streams)) [
    | inl n ↦ absurd (ground (arith, v.listed id))
    | inr (q, o) ↦
        split q o
          (lookup-Entries (IsQueue s.maximum_queued_bytes_per_stream) id q s.streams v.queues
            o).held
  ]
    where
      split :
          (q : List (OutboundItem Body))
          → lookup id s.streams ≡ some q
          → null q ≡ false
          → (item : OutboundItem Body) × (q : List (OutboundItem Body)) × (lookup id s.streams
              ≡ some (item ∷ q))
      split [] o h = absurd (ground arith)
      split (x ∷ q) o h = (x, q, o)

  -- Taking the front frame of a stream, with what is known of the state before.
  module _ (id : ℕ) (rest : List ℕ) (item : OutboundItem Body) (q : List (OutboundItem Body))
      (s : FairScheduler Body) (v : IsValid s) (front : s.active ≡ id ∷ rest)
      (found : lookup id s.streams ≡ some (item ∷ q)) where
    rest-Once : (member id rest ≡ false) × Once rest
    rest-Once = subst Once front v.once

    listed_rest : (j : ℕ) → (id == j || member j rest) ≡ is_some (lookup j s.streams)
    listed_rest j = rw front at (v.listed j)

    settle_last : null q ≡ true → IsValid (settle (record s { active = rest }) id item q)
    unfolding settle
    settle_last h =
        rw (h, settle)
          (record {
            machine = v.machine;
            accounted =
                ground
                  (arith, v.accounted, total-remove bytes id s.streams v.distinct, null_bytes q h);
            bounded = ground (arith, v.bounded);
            control_bounded = v.control_bounded;
            queues =
                remove-Entries (IsQueue s.maximum_queued_bytes_per_stream) id s.streams v.queues;
            distinct = remove-Distinct id s.streams v.distinct;
            per_stream = λ j. ground (
              arith,
              v.per_stream j,
              lookup-remove id j s.streams,
              lookup-remove id j s.per_stream_bytes,
            );
            once = rest-Once.1;
            listed = λ j. ground (arith, listed_rest j, rest-Once.0, lookup-remove id j s.streams);
          })
      where
        null_bytes : (xs : List (OutboundItem Body)) → null xs ≡ true → bytes xs ≡ 0
        null_bytes [] n = refl
        null_bytes (x ∷ xs) n = absurd (ground arith)

    settle_more : null q ≡ false → IsValid (settle (record s { active = rest }) id item q)
    unfolding settle
    settle_more h =
        rw (h, settle)
          (record {
            machine = v.machine;
            accounted = ground (arith, v.accounted, total-insert bytes id q s.streams);
            bounded = ground (arith, v.bounded);
            control_bounded = v.control_bounded;
            queues =
                insert-Entries (IsQueue s.maximum_queued_bytes_per_stream) id q s.streams v.queues
                  (record {
                    held = h;
                    fits = omega (
                      arith,
                      (lookup-Entries (IsQueue s.maximum_queued_bytes_per_stream) id (item ∷ q)
                          s.streams v.queues found).fits,
                    );
                  });
            distinct = insert-Distinct id q s.streams v.distinct;
            per_stream = λ j. ground (
              arith,
              v.per_stream j,
              v.per_stream id,
              lookup-insert id j q s.streams,
              lookup-insert id j (unwrap_or (lookup id s.per_stream_bytes) 0 - item.accounted_bytes)
                  s.per_stream_bytes,
            );
            once = append-Once id rest rest-Once.1 rest-Once.0;
            listed = λ j. ground (
              arith,
              listed_rest j,
              member-append j rest (id ∷ []),
              lookup-insert id j q s.streams,
            );
          })

    settle-IsValid : IsValid (settle (record s { active = rest }) id item q)
    settle-IsValid = elim (Bool-cases (null q)) [ inl h ↦ settle_last h | inr h ↦ settle_more h ]

  pop_control-IsValid :
      (b : ℕ) (c : List (OutboundItem Body)) (s : FairScheduler Body)
      → IsValid s
      → s.control ≡ c
      → IsValid (pop_control s b c).0
  unfolding pop_control
  pop_control-IsValid b [] s v e = ground (arith, v.per_stream, v.listed)
  pop_control-IsValid b (x ∷ c) s v e =
      ground (arith, v.per_stream, v.listed, ap bytes e, ap length e)

  pop_active-IsValid :
      (xs : List ℕ) (s : FairScheduler Body)
      → IsValid s
      → s.active ≡ xs
      → IsValid (pop_active s xs).0
  unfolding pop_active pop_stream
  pop_active-IsValid [] s v e = pop_control-IsValid s.control_burst s.control s v refl
  pop_active-IsValid (id ∷ rest) s v e =
      let (item, q, found) = front id rest s v e in
      rw (found, pop_stream) (settle-IsValid id rest item q s v e found)

  pub pop_next-IsValid : (s : FairScheduler Body) → IsValid s → IsValid (pop_next s).0
  unfolding pop_next
  pop_next-IsValid s v = ground (
    arith,
    pop_control-IsValid (s.control_burst + 1) s.control s v refl,
    pop_active-IsValid s.active s v refl,
  )

  total-lookup-le :
      (id : ℕ) (q : List (OutboundItem Body)) (s : FairScheduler Body)
      → IsValid s
      → lookup id s.streams ≡ some q
      → bytes q ≤ total bytes s.streams
  total-lookup-le id q s v e = ground (arith, total-remove bytes id s.streams v.distinct)

  pub cancel_stream-IsValid :
      (id : ℕ) (s : FairScheduler Body) → IsValid s → IsValid (cancel_stream id s)
  unfolding cancel_stream
  cancel_stream-IsValid id s v = record {
    machine = v.machine;
    accounted = books;
    bounded = elim (Option-cases (lookup id s.streams)) [
      | inl e ↦ ground (arith, v.bounded)
      | inr (q, e) ↦ ground (arith, v.bounded)
    ];
    control_bounded = v.control_bounded;
    queues = remove-Entries (IsQueue s.maximum_queued_bytes_per_stream) id s.streams v.queues;
    distinct = remove-Distinct id s.streams v.distinct;
    per_stream = λ j. ground (
      arith,
      v.per_stream j,
      lookup-remove id j s.streams,
      lookup-remove id j s.per_stream_bytes,
    );
    once = retain_ne-Once id s.active v.once;
    listed = λ j.
        ground (arith, v.listed j, member-retain_ne id j s.active, lookup-remove id j s.streams);
  }
    where
      books :
          (cancel_stream id s).queued_bytes ≡ bytes s.control + total bytes (remove id s.streams)
      books = elim (Option-cases (lookup id s.streams)) [
        | inl e ↦ ground (arith, v.accounted, total-remove bytes id s.streams v.distinct)
        | inr (q, e) ↦ ground (
          arith,
          v.accounted,
          v.bounded,
          v.machine,
          total-remove bytes id s.streams v.distinct,
          saturating_bytes_lem 0 q,
        )
      ]
