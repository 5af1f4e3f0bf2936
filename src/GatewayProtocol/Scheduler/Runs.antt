-- ===== src/GatewayProtocol/Scheduler/Runs.antt =====
-- crates/gateway-protocol/src/scheduler.rs: histories of calls of the scheduler.
use vpn_ne_vpn.Prelude.{
  ℕ, ◌+◌, ◌≤◌, ◌≡◌, ◌≢◌, ◌↔◌, refl, false, null, u64_max, ok, err, none, List, [], ◌∷◌, arith,
}
use vpn_ne_vpn.Prelude.Maps.{lookup, nat_eq, is_some, Map}
use vpn_ne_vpn.Prelude.Members.{member}
use vpn_ne_vpn.GatewayProtocol.Error.{ProtocolError}
use vpn_ne_vpn.GatewayProtocol.Scheduler.{
  OutboundItem, FairScheduler, new, enqueue_control, enqueue_stream, pop_next, pop_control,
  pop_active, pop_stream, Op, queues_control, queues_stream, pops, cancels, perform, run,
}
use vpn_ne_vpn.GatewayProtocol.Scheduler.Invariant.{IsValid, new-IsValid}
use vpn_ne_vpn.GatewayProtocol.Scheduler.Enqueue.{enqueue_control-IsValid, enqueue_stream-IsValid}
use vpn_ne_vpn.GatewayProtocol.Scheduler.Dequeue.{pop_next-IsValid, cancel_stream-IsValid, front}

no_active : (xs : List ℕ) → ((id : ℕ) → member id xs ≡ false) → xs ≡ []
no_active [] h = refl
no_active (x ∷ xs) h = absurd (ground (arith, h x))

module _ {Body : Type 0} where
  pub perform-IsValid : (o : Op Body) (s : FairScheduler Body) → IsValid s → IsValid (perform o s)
  unfolding perform
  perform-IsValid (queues_control item) s v = enqueue_control-IsValid item s v
  perform-IsValid (queues_stream id item) s v = enqueue_stream-IsValid id item s v
  perform-IsValid pops s v = pop_next-IsValid s v
  perform-IsValid (cancels id) s v = cancel_stream-IsValid id s v

  pub run-IsValid : (os : List (Op Body)) (s : FairScheduler Body) → IsValid s → IsValid (run s os)
  unfolding run
  run-IsValid [] s v = v
  run-IsValid (o ∷ os) s v = run-IsValid os (perform o s) (perform-IsValid o s v)

  -- After any history of calls on a scheduler that `new` accepts, with a limit that is a machine
  -- word, the books balance: `queued_bytes` is the sum of the bytes of all queued frames and within
  -- its limit, each stream's account is the sum of its frames and within its limit, the control queue
  -- is within its limit, and `active` lists exactly the streams that have a frame, each once.
  pub new-run-IsBalanced :
      (m p c : ℕ) (s : FairScheduler Body) (os : List (Op Body))
      → m ≤ u64_max
      → new m p c ≡ ok s
      → IsValid (run s os)
  new-run-IsBalanced m p c s os u h = run-IsValid os s (new-IsValid m p c s u h)

  -- A frame that is refused changes nothing, on the control queue and on a stream.
  pub enqueue_atomic :
      (id : ℕ) (item : OutboundItem Body) (s : FairScheduler Body) (e : ProtocolError)
      → ((enqueue_control item s).1 ≡ err e → (enqueue_control item s).0 ≡ s)
        × ((enqueue_stream id item s).1 ≡ err e → (enqueue_stream id item s).0 ≡ s)
  unfolding enqueue_control enqueue_stream
  enqueue_atomic id item s e = (λ h. ground arith, λ h. ground arith)

  no_streams :
      (m : Map ℕ (List (OutboundItem Body))) → ((id : ℕ) → false ≡ is_some (lookup id m)) → m ≡ []
  no_streams [] h = refl
  no_streams ((id, q) ∷ m) h = absurd (ground (arith, h id))

  pop_active-none :
      (xs : List ℕ) (s : FairScheduler Body)
      → IsValid s
      → s.active ≡ xs
      → (pop_active s xs).1 ≡ none
      → (s.control ≡ []) × (xs ≡ [])
  unfolding pop_active pop_control pop_stream
  pop_active-none [] s v e h = (ground arith, refl)
  pop_active-none (id ∷ rest) s v e h =
      let (item, q, found) = front id rest s v e in absurd (ground arith)

  pop_control_some :
      (b : ℕ) (c : List (OutboundItem Body)) (s : FairScheduler Body)
      → null c ≡ false
      → (pop_control s b c).1 ≢ none
  unfolding pop_control
  pop_control_some b [] s h = absurd (ground arith)
  pop_control_some b (x ∷ c) s h = λ e. ground arith

  -- The scheduler is work-conserving: a valid one has no next frame exactly if no frame is queued.
  pub pop_next-none_iff :
      (s : FairScheduler Body)
      → IsValid s
      → ((pop_next s).1 ≡ none) ↔ ((s.control ≡ []) × (s.streams ≡ []))
  unfolding pop_next pop_active pop_control
  pop_next-none_iff s v =
      (λ h. idle h, λ h. empty h.0 (no_active s.active (λ id. rw h.1 at (v.listed id))))
    where
      drained : (s.control ≡ []) × (s.active ≡ []) → (s.control ≡ []) × (s.streams ≡ [])
      drained d = (d.0, no_streams s.streams (λ id. rw d.1 at (v.listed id)))

      idle : (pop_next s).1 ≡ none → (s.control ≡ []) × (s.streams ≡ [])
      idle h = drained (
          ground (
            arith,
            pop_control_some (s.control_burst + 1) s.control s,
            pop_active-none s.active s v refl,
          ))

      empty : s.control ≡ [] → s.active ≡ [] → (pop_next s).1 ≡ none
      empty c a = ground arith
