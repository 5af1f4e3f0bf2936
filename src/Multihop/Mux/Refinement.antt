-- ===== src/Multihop/Mux/Refinement.antt =====
-- crates/gateway-multihop/src/mux.rs and crates/gateway-protocol/src/scheduler.rs: the queue is the
-- scheduler with sessions for streams.
use vpn_ne_vpn.Prelude.{
  ok_or, checked_add, length, if◌then◌else◌, Bool, Result, false, is_ok, ◌%◌, ◌==◌, ℕ, ◌+◌, ◌≤◌,
  ◌≡◌, ◌∙◌, Option-cases, Result-cases, sym, subst, not, ◌&&◌, ◌||◌, ltb, checked_add, refl, ap,
  false, null, u64_max, ok, err, Option, some, none, List, [], ◌∷◌, ◌++◌, unwrap_or, arith,
  Bool-cases, inl, inr,
}
use vpn_ne_vpn.Prelude.Maps.{lookup, nat_eq}
use vpn_ne_vpn.GatewayProtocol.Scheduler as Scheduler
use vpn_ne_vpn.GatewayProtocol.Scheduler.{OutboundItem, FairScheduler}
use vpn_ne_vpn.GatewayProtocol.Scheduler.Invariant.{IsValid, new-IsValid}
use vpn_ne_vpn.GatewayProtocol.Scheduler.Runs.{perform-IsValid}
use vpn_ne_vpn.GatewayProtocol.Scheduler.Enqueue.{enqueue_control-IsValid, enqueue_stream-IsValid}
use vpn_ne_vpn.Multihop.Error.{ErrorCode, resource_exhausted}
use vpn_ne_vpn.Multihop.Mux.{
  content, accounting_overhead, max_control_burst, OutboundCommand, FairMuxQueue, session_id,
  accounted_bytes, new, push_control, push_session, try_push, pop_control, settle, pop_session,
  pop_active, pop_next, cancel_session, Op, pushes, pops, cancels, perform, run,
}
use vpn_ne_vpn.Multihop.Mux.Abstraction.{
  item, items, some_items, some_item, as_scheduler, items-append, length-items, null-items,
  unwrap_or-items, lookup-streams, insert-streams, remove-streams, saturating_bytes-items,
}

-- The answer of the scheduler for an answer of the queue.
abbrev pub answer :
    FairMuxQueue × Option OutboundCommand
    → FairScheduler OutboundCommand × Option (OutboundItem OutboundCommand)
answer (q, popped) = (as_scheduler q, some_item popped)

pop_control-as_scheduler :
    (q : FairMuxQueue) (burst : ℕ) (cs : List OutboundCommand)
    → Scheduler.pop_control (as_scheduler q) burst (items cs) ≡ answer (pop_control q burst cs)
unfolding Scheduler.pop_control pop_control
pop_control-as_scheduler q burst [] = refl
pop_control-as_scheduler q burst (c ∷ cs) = refl

settle-as_scheduler :
    (q : FairMuxQueue) (id : ℕ) (c : OutboundCommand) (queue : List OutboundCommand)
    → Scheduler.settle (as_scheduler q) id (item c) (items queue)
      ≡ as_scheduler (settle q id c queue)
unfolding Scheduler.settle settle
settle-as_scheduler q id c [] = rw (remove-streams id q.sessions)
settle-as_scheduler q id c (d ∷ queue) = rw (insert-streams id (d ∷ queue) q.sessions)

pop_stream-as_scheduler :
    (q : FairMuxQueue) (id : ℕ) (queue : Option (List OutboundCommand))
    → Scheduler.pop_stream (as_scheduler q) id (some_items queue) ≡ answer (pop_session q id queue)
unfolding Scheduler.pop_stream pop_session
pop_stream-as_scheduler q id none = refl
pop_stream-as_scheduler q id (some []) = refl
pop_stream-as_scheduler q id (some (c ∷ cs)) =
    ap (λ s. (s, some (item c))) (settle-as_scheduler q id c cs)

pop_active-as_scheduler :
    (q : FairMuxQueue) (active : List ℕ)
    → Scheduler.pop_active (as_scheduler q) active ≡ answer (pop_active q active)
unfolding Scheduler.pop_active pop_active
pop_active-as_scheduler q [] = pop_control-as_scheduler q q.control_burst q.control
pop_active-as_scheduler q (id ∷ rest) =
    ap (Scheduler.pop_stream (as_scheduler (record q { active = rest })) id)
      (lookup-streams id q.sessions)
    ∙ pop_stream-as_scheduler (record q { active = rest }) id (lookup id q.sessions)

-- The queue takes the frame that the scheduler takes, and is then the scheduler that is left.
pub pop_next-as_scheduler :
    (q : FairMuxQueue) → Scheduler.pop_next (as_scheduler q) ≡ answer (pop_next q)
unfolding Scheduler.pop_next pop_next
pop_next-as_scheduler q =
    elim (Bool-cases
      (not (null q.control) && (ltb q.control_burst max_control_burst || null q.active))) [
        | inl h ↦ ground (
          arith,
          h,
          null-items q.control,
          pop_control-as_scheduler q (q.control_burst + 1) q.control,
        )
        | inr h ↦ ground (arith, h, null-items q.control, pop_active-as_scheduler q q.active)
      ]

cancel_stream-as_scheduler :
    (id : ℕ) (q : FairMuxQueue)
    → Scheduler.cancel_stream id (as_scheduler q) ≡ as_scheduler (cancel_session id q)
unfolding Scheduler.cancel_stream cancel_session
cancel_stream-as_scheduler id q = elim (Option-cases (lookup id q.sessions)) [
  | inl e ↦ ground (arith, e, lookup-streams id q.sessions, remove-streams id q.sessions)
  | inr (queue, e) ↦ ground (
    arith,
    e,
    lookup-streams id q.sessions,
    remove-streams id q.sessions,
    saturating_bytes-items 0 queue,
  )
]

-- What the scheduler answers when it is offered the frame of a command: of a session whose number is
-- not odd it is not asked.
abbrev pub offer :
    Option ℕ
    → OutboundItem OutboundCommand
    → FairScheduler OutboundCommand
    → FairScheduler OutboundCommand × Bool
offer none frame s = let queued = Scheduler.enqueue_control frame s in (queued.0, is_ok queued.1)
offer (some id) frame s =
    let queued = Scheduler.enqueue_stream id frame s in
    if id == 0 || id % 2 == 0 then (s, false) else (queued.0, is_ok queued.1)

-- The answer of a push to the queue.
abbrev pub pushed :
    FairMuxQueue × Result ErrorCode (Unit {0}) → FairScheduler OutboundCommand × Bool
pushed (q, r) = (as_scheduler q, is_ok r)

offer_control :
    (c : OutboundCommand) (q : FairMuxQueue) (n : ℕ)
    → session_id c ≡ none
    → accounted_bytes c ≡ ok n
    → pushed (try_push c q) ≡ offer none (item c) (as_scheduler q)
unfolding try_push push_control Scheduler.enqueue_control Scheduler.can_enqueue_control
    Scheduler.reserve_global
offer_control c q n e a =
    ground (arith, e, a, length-items q.control, items-append q.control (c ∷ []))

offer_session :
    (id : ℕ) (c : OutboundCommand) (q : FairMuxQueue) (n : ℕ)
    → session_id c ≡ some id
    → accounted_bytes c ≡ ok n
    → pushed (try_push c q) ≡ offer (some id) (item c) (as_scheduler q)
unfolding try_push push_session Scheduler.enqueue_stream Scheduler.can_enqueue_stream
    Scheduler.reserve_global
offer_session id c q n e a =
    let queue = unwrap_or (lookup id q.sessions) [] in
    ground (
      arith,
      e,
      a,
      unwrap_or-items (lookup id q.sessions),
      lookup-streams id q.sessions,
      insert-streams id (queue ++ (c ∷ [])) q.sessions,
      items-append queue (c ∷ []),
      null-items queue,
    )

try_push-offer :
    (c : OutboundCommand) (q : FairMuxQueue) (n : ℕ)
    → accounted_bytes c ≡ ok n
    → pushed (try_push c q) ≡ offer (session_id c) (item c) (as_scheduler q)
try_push-offer c q n a = elim (Option-cases (session_id c)) [
  | inl e ↦ offer_control c q n e a ∙ ap (λ o. offer o (item c) (as_scheduler q)) (sym e)
  | inr (id, e) ↦ offer_session id c q n e a ∙ ap (λ o. offer o (item c) (as_scheduler q)) (sym e)
]

-- A command whose bytes can be counted in a machine word is queued exactly when the scheduler queues
-- its frame and its session, if it has one, has an odd number; the queue is then the scheduler that is
-- left. It is also the scheduler that is left by a refusal.
pub try_push-as_scheduler :
    (c : OutboundCommand) (q : FairMuxQueue)
    → length (content c) + accounting_overhead ≤ u64_max
    → pushed (try_push c q) ≡ offer (session_id c) (item c) (as_scheduler q)
try_push-as_scheduler c q h =
    try_push-offer c q (length (content c) + accounting_overhead) (counted (length (content c)) h)
  where
    counted :
        (n : ℕ)
        → n + accounting_overhead ≤ u64_max
        → ok_or (checked_add n accounting_overhead) resource_exhausted
          ≡ ok (n + accounting_overhead)
    counted n h = ground arith

offer-IsValid :
    (id : Option ℕ) (frame : OutboundItem OutboundCommand) (s : FairScheduler OutboundCommand)
    → IsValid s
    → IsValid (offer id frame s).0
offer-IsValid none frame s v = enqueue_control-IsValid frame s v
offer-IsValid (some id) frame s v = elim (Bool-cases (id == 0 || id % 2 == 0)) [
  | inl h ↦ rw h v
  | inr h ↦ rw h (enqueue_stream-IsValid id frame s v)
]

try_push_uncounted :
    (c : OutboundCommand) (q : FairMuxQueue) (e : ErrorCode)
    → accounted_bytes c ≡ err e
    → (try_push c q).0 ≡ q
unfolding try_push
try_push_uncounted c q e h = rw h

as_scheduler-perform-IsValid :
    (o : Op) (q : FairMuxQueue) → IsValid (as_scheduler q) → IsValid (as_scheduler (perform o q))
unfolding perform Scheduler.perform
as_scheduler-perform-IsValid (pushes c) q v = elim (Result-cases (accounted_bytes c)) [
  | inl (e, h) ↦ subst (λ r. IsValid (as_scheduler r)) (sym (try_push_uncounted c q e h)) v
  | inr (n, h) ↦
      subst IsValid (sym (ap (λ r. r.0) (try_push-offer c q n h)))
        (offer-IsValid (session_id c) (item c) (as_scheduler q) v)
]
as_scheduler-perform-IsValid pops q v =
    subst IsValid (ap (λ r. r.0) (pop_next-as_scheduler q))
      (perform-IsValid Scheduler.pops (as_scheduler q) v)
as_scheduler-perform-IsValid (cancels id) q v =
    subst IsValid (cancel_stream-as_scheduler id q)
      (perform-IsValid (Scheduler.cancels id) (as_scheduler q) v)

as_scheduler-queue_run-IsValid :
    (os : List Op) (q : FairMuxQueue) → IsValid (as_scheduler q) → IsValid (as_scheduler (run q os))
unfolding run
as_scheduler-queue_run-IsValid [] q v = v
as_scheduler-queue_run-IsValid (o ∷ os) q v =
    as_scheduler-queue_run-IsValid os (perform o q) (as_scheduler-perform-IsValid o q v)

new-as_scheduler :
    (m p c : ℕ) (q : FairMuxQueue) → new m p c ≡ ok q → Scheduler.new m p c ≡ ok (as_scheduler q)
unfolding new Scheduler.new
new-as_scheduler m p c q h = ground arith

-- After any history of commands, pops and cancels on a queue that `new` accepts, with a limit that is
-- a machine word, its books balance: `queued_bytes` is the sum of what all queued commands are charged
-- and within its limit, so is each session's account, the control queue is within its limit, and
-- `active` lists exactly the sessions with a command, each once.
pub as_scheduler-run-IsValid :
    (m p c : ℕ) (q : FairMuxQueue) (os : List Op)
    → m ≤ u64_max
    → new m p c ≡ ok q
    → IsValid (as_scheduler (run q os))
as_scheduler-run-IsValid m p c q os u h =
    as_scheduler-queue_run-IsValid os q
      (new-IsValid m p c (as_scheduler q) u (new-as_scheduler m p c q h))
