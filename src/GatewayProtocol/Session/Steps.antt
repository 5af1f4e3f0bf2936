-- ===== src/GatewayProtocol/Session/Steps.antt =====
-- crates/gateway-protocol/src/session.rs: the steps of which the calls are made advance the session.
use vpn_ne_vpn.Prelude.{
  ℕ, ◌≤◌, ◌≡◌, ◌⊎◌, refl, sym, subst, Bool, Result, Option, some, none, List, [], ◌∷◌, arith, inr,
}
use vpn_ne_vpn.Prelude.Keeps.{fail_if, modify, lift, get, return, ◌>>=◌, ◌>>◌, check}
use vpn_ne_vpn.Prelude.Keeps.{
  Keeps, bind-Keeps, then-Keeps, lift-Keeps, return-Keeps, get-Keeps, fail_if-Keeps, check-Keeps,
}
use vpn_ne_vpn.GatewayProtocol.Error.{ProtocolError}
use vpn_ne_vpn.GatewayProtocol.Messages.{Body, GatewayFrame}
use vpn_ne_vpn.GatewayProtocol.Flow
use vpn_ne_vpn.GatewayProtocol.Flow.{FlowController}
use vpn_ne_vpn.GatewayProtocol.Scheduler
use vpn_ne_vpn.GatewayProtocol.Scheduler.{
  FairScheduler, OutboundItem, enqueue_control, enqueue_stream, cancel_stream, pop_next,
}
use vpn_ne_vpn.GatewayProtocol.Session.{
  Session, Call, with_flow, on_flow, with_scheduler, draining, active, closed_phase,
}
use vpn_ne_vpn.GatewayProtocol.Session.Advance.{
  Advances, Advances_refl, LedgerRuns, advancing, SchedulerRuns,
}
use vpn_ne_vpn.GatewayProtocol.Session.Outbound.{announce}

with_ledger :
    (s : Session) (f : Option FlowController)
    → LedgerRuns s.flow f
    → Advances s (record s { flow = f })
with_ledger s f r =
    let a = Advances_refl s in
    record {
      ledger = r;
      queue = a.queue;
      older = a.older;
      role = a.role;
      identity = a.identity;
      sends = a.sends;
      receives = a.receives;
      granted = a.granted;
    }

pub with_queue :
    (s : Session) (q : FairScheduler Body)
    → SchedulerRuns s.scheduler q
    → Advances s (record s { scheduler = q })
with_queue s q r =
    let a = Advances_refl s in
    record {
      ledger = a.ledger;
      queue = r;
      older = a.older;
      role = a.role;
      identity = a.identity;
      sends = a.sends;
      receives = a.receives;
      granted = a.granted;
    }

flow_step :
    (o : Flow.Op) (s : Session) (f : Option FlowController)
    → s.flow ≡ f
    → Advances s (on_flow (Flow.perform o) f s).0
unfolding Flow.run
flow_step o s none e = Advances_refl s
flow_step o s (some f) e =
    with_ledger s (some (Flow.perform o f).0)
      (subst (λ g. LedgerRuns g (some (Flow.perform o f).0)) (sym e) ((o ∷ [], refl)))

pub flow-Keeps : (o : Flow.Op) → Keeps advancing (with_flow (Flow.perform o))
unfolding with_flow
flow-Keeps o = record { moves = λ s. flow_step o s s.flow refl }

pub enqueue_control-Keeps :
    (i : OutboundItem Body) → Keeps advancing (with_scheduler (enqueue_control i))
unfolding Scheduler.run with_scheduler
enqueue_control-Keeps i = record {
  moves =
      λ s. with_queue s (enqueue_control i s.scheduler).0 (Scheduler.queues_control i ∷ [], refl);
}

pub enqueue_stream-Keeps :
    (id : ℕ) (i : OutboundItem Body) → Keeps advancing (with_scheduler (enqueue_stream id i))
unfolding Scheduler.run with_scheduler
enqueue_stream-Keeps id i = record {
  moves = λ s.
      with_queue s (enqueue_stream id i s.scheduler).0 (Scheduler.queues_stream id i ∷ [], refl);
}

pub cancel-Keeps :
    (id : ℕ)
    → Keeps advancing
        (modify {E = ProtocolError} (λ s. record s { scheduler = cancel_stream id s.scheduler }))
unfolding Scheduler.run modify
cancel-Keeps id = record {
  moves = λ s. with_queue s (cancel_stream id s.scheduler) (Scheduler.cancels id ∷ [], refl);
}

pub popped : (s : Session) → Advances s (record s { scheduler = (pop_next s.scheduler).0 })
unfolding Scheduler.run
popped s = with_queue s (pop_next s.scheduler).0 (Scheduler.pops ∷ [], refl)

-- The sets of queries are no part of the order.
pub similar :
    (s : Session) (local remote : List ℕ) (last_local last_remote : ℕ)
    → Advances s (record s {
      local_resolves = local;
      remote_resolves = remote;
      maximum_seen_local_query_id = last_local;
      maximum_seen_remote_query_id = last_remote;
    })
similar s local remote last_local last_remote =
    let a = Advances_refl s in
    record {
      ledger = a.ledger;
      queue = a.queue;
      older = a.older;
      role = a.role;
      identity = a.identity;
      sends = a.sends;
      receives = a.receives;
      granted = a.granted;
    }

module _ (encode_message : GatewayFrame → List ℕ) where
  pub announce-Keeps :
      (body : Body) (change : Call (Unit {0}))
      → Keeps advancing change
      → Keeps advancing (announce encode_message body change)
  announce-Keeps body change k = bind-Keeps advancing _ _ (lift-Keeps advancing _) λ size.
      then-Keeps advancing _ _ (check-Keeps advancing _)
        (then-Keeps advancing _ _ k (enqueue_control-Keeps _))

-- To close a session is to advance it, whatever happened before.
pub closes : (s t : Session) → Advances s t → Advances s (record t { phase = closed_phase })
closes s t a = record {
  ledger = a.ledger;
  queue = a.queue;
  older = inr (inr refl);
  role = a.role;
  identity = a.identity;
  sends = a.sends;
  receives = a.receives;
  granted = a.granted;
}

-- So it is to drain one that is active or draining.
pub drains :
    (s t : Session)
    → Advances s t
    → (s.phase ≡ active) ⊎ (s.phase ≡ draining)
    → Advances s (record t { phase = draining })
drains s t a p = record {
  ledger = a.ledger;
  queue = a.queue;
  older = ground (arith, p);
  role = a.role;
  identity = a.identity;
  sends = a.sends;
  receives = a.receives;
  granted = a.granted;
}

pub drained :
    (s : Session)
    → (s.phase ≡ active) ⊎ (s.phase ≡ draining)
    → Advances s (record s { phase = draining })
drained s h = drains s s (Advances_refl s) h

pub renumbered :
    (s : Session) (send receive : ℕ)
    → s.next_send_sequence ≤ send
    → s.next_receive_sequence ≤ receive
    → Advances s (record s { next_send_sequence = send; next_receive_sequence = receive })
renumbered s send receive h l =
    let a = Advances_refl s in
    record {
      ledger = a.ledger;
      queue = a.queue;
      older = a.older;
      role = a.role;
      identity = a.identity;
      sends = h;
      receives = l;
      granted = a.granted;
    }

-- The steps as they are chained in a call.
infixr 4 ◌then◌ ◌bind◌
pub ◌then◌ :
    {B : Type 0} {m : Call (Unit {0})} {k : Call B}
    → Keeps advancing m
    → Keeps advancing k
    → Keeps advancing (m >> k)
◌then◌ {B = B} {m = m} {k = k} h l = then-Keeps advancing m k h l

pub ◌bind◌ :
    {A B : Type 0} {m : Call A} {f : A → Call B}
    → Keeps advancing m
    → ((a : A) → Keeps advancing (f a))
    → Keeps advancing (m >>= f)
◌bind◌ {m = m} {f = f} h l = bind-Keeps advancing m f h l

pub checked : (c : Session → Result ProtocolError (Unit {0})) → Keeps advancing (check c)
checked c = check-Keeps advancing c

pub lifted : {A : Type 0} (r : Result ProtocolError A) → Keeps advancing (lift {S = Session} r)
lifted r = lift-Keeps advancing r

pub failed : (b : Bool) (e : ProtocolError) → Keeps advancing (fail_if {S = Session} b e)
failed b e = fail_if-Keeps advancing b e

pub got : Keeps advancing (get {S = Session} {E = ProtocolError})
got = get-Keeps advancing

pub returned : {A : Type 0} (a : A) → Keeps advancing (return {S = Session} {E = ProtocolError} a)
returned a = return-Keeps advancing a
