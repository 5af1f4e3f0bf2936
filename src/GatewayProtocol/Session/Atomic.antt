-- ===== src/GatewayProtocol/Session/Atomic.antt =====
-- crates/gateway-protocol/src/session.rs: a call by which a side sends leaves the session as it was when
-- it fails, since it asks the scheduler before it changes anything.
use vpn_ne_vpn.Prelude.{
  ℕ, ◌≡◌, refl, sym, ap, ◌∙◌, subst, Result, ok, err, Option, some, none, List, arith,
}
use vpn_ne_vpn.Prelude.Maps.{nat_eq}
use vpn_ne_vpn.Prelude.Keeps.{modify, return, ◌>>◌, check, resume}
use vpn_ne_vpn.Prelude.Undo.{Undoes, Succeeds, undo_check, undo_bind, undo_then, then-Succeeds}
use vpn_ne_vpn.GatewayProtocol.Error.{ProtocolError}
use vpn_ne_vpn.GatewayProtocol.Messages.{Body, GatewayFrame}
use vpn_ne_vpn.GatewayProtocol.Flow
use vpn_ne_vpn.GatewayProtocol.Flow.{FlowController}
use vpn_ne_vpn.GatewayProtocol.Flow.Invariant.{perform_atomic}
use vpn_ne_vpn.GatewayProtocol.Scheduler.{
  OutboundItem, FairScheduler, can_enqueue_control, can_enqueue_stream, enqueue_control,
  enqueue_stream, cancel_stream,
}
use vpn_ne_vpn.GatewayProtocol.Session.{Session, Call, with_flow, on_flow, with_scheduler}
use vpn_ne_vpn.GatewayProtocol.Session.Outbound.{announce, queue_control_body, cancel_queued, item}

enqueue_control_ok :
    (i : OutboundItem Body) (q : FairScheduler Body)
    → can_enqueue_control q i.accounted_bytes ≡ ok tt
    → (enqueue_control i q).1 ≡ ok tt
unfolding enqueue_control
enqueue_control_ok i q h = ground arith

enqueue_control_same :
    (i : OutboundItem Body) (q : FairScheduler Body) (e : ProtocolError)
    → (enqueue_control i q).1 ≡ err e
    → (enqueue_control i q).0 ≡ q
unfolding enqueue_control
enqueue_control_same i q e h = ground arith

enqueue_stream_ok :
    (id : ℕ) (i : OutboundItem Body) (q : FairScheduler Body)
    → can_enqueue_stream q id i.accounted_bytes ≡ ok tt
    → (enqueue_stream id i q).1 ≡ ok tt
unfolding enqueue_stream can_enqueue_stream
enqueue_stream_ok id i q h = ground arith

-- What a stream frees leaves room for what there was room for.
cancel_stream-can_enqueue_control :
    (id n : ℕ) (q : FairScheduler Body)
    → can_enqueue_control q n ≡ ok tt
    → can_enqueue_control (cancel_stream id q) n ≡ ok tt
unfolding can_enqueue_control cancel_stream
cancel_stream-can_enqueue_control id n q h = ground (arith, h)

-- A change that is undone when it fails and leaves the room that there was.
pub record IsReady (change : Call (Unit {0})) : Type 0 where
  pub undoes : (s : Session) → Undoes change s
  pub roomy :
      (s : Session) (n : ℕ)
      → can_enqueue_control s.scheduler n ≡ ok tt
      → can_enqueue_control (change s).0.scheduler n ≡ ok tt

on_flow-Undoes :
    (o : Flow.Op) (f : Option FlowController) (s : Session) (e : ProtocolError)
    → s.flow ≡ f
    → (on_flow (Flow.perform o) f s).1 ≡ err e
    → (on_flow (Flow.perform o) f s).0 ≡ s
on_flow-Undoes o none s e p h = refl
on_flow-Undoes o (some f) s e p h =
    ap (λ g. record s { flow = g }) (ap some (perform_atomic o f e h) ∙ sym p)

on_flow-scheduler :
    (o : Flow.Op) (f : Option FlowController) (s : Session)
    → (on_flow (Flow.perform o) f s).0.scheduler ≡ s.scheduler
on_flow-scheduler o none s = refl
on_flow-scheduler o (some f) s = refl

pub flow-Undoes : (o : Flow.Op) (s : Session) → Undoes (with_flow (Flow.perform o)) s
unfolding with_flow
flow-Undoes o s e h = on_flow-Undoes o s.flow s e refl h

pub flow-scheduler :
    (o : Flow.Op) (s : Session) → (with_flow (Flow.perform o) s).0.scheduler ≡ s.scheduler
unfolding with_flow
flow-scheduler o s = on_flow-scheduler o s.flow s

pub flow-IsReady : (o : Flow.Op) → IsReady (with_flow (Flow.perform o))
flow-IsReady o = record {
  undoes = λ s. flow-Undoes o s;
  roomy = λ s n h. subst (λ q. can_enqueue_control q n ≡ ok tt) (sym (flow-scheduler o s)) h;
}

pub modify-IsReady :
    (f : Session → Session) → ((s : Session) → (f s).scheduler ≡ s.scheduler) → IsReady (modify f)
unfolding modify
modify-IsReady f same = record {
  undoes = λ s e h. cc h;
  roomy = λ s n h. subst (λ q. can_enqueue_control q n ≡ ok tt) (sym (same s)) h;
}

cancelled-roomy :
    (id n : ℕ) (t : Session) (r : Result ProtocolError (Unit {0}))
    → can_enqueue_control t.scheduler n ≡ ok tt
    → can_enqueue_control (resume (λ _. cancel_queued id) t r).0.scheduler n ≡ ok tt
unfolding modify
cancelled-roomy id n t (ok _) h = cancel_stream-can_enqueue_control id n t.scheduler h
cancelled-roomy id n t (err e) h = h

cancels : (id : ℕ) (s : Session) → Succeeds (cancel_queued id) s
unfolding modify
cancels id s = (tt, refl)

pub closing-IsReady :
    (id : ℕ) → IsReady (with_flow (Flow.perform (Flow.closes id)) >> cancel_queued id)
unfolding ◌>>◌
closing-IsReady id = record {
  undoes = λ s.
      undo_then (with_flow (Flow.perform (Flow.closes id))) (cancel_queued id) s
        (flow-Undoes (Flow.closes id) s) (λ h. cancels id _);
  roomy = λ s n h. cancelled-roomy id n _ _ ((flow-IsReady (Flow.closes id)).roomy s n h);
}

control-Succeeds :
    (i : OutboundItem Body) (s : Session)
    → can_enqueue_control s.scheduler i.accounted_bytes ≡ ok tt
    → Succeeds (with_scheduler (enqueue_control i)) s
unfolding with_scheduler
control-Succeeds i s h = (tt, enqueue_control_ok i s.scheduler h)

module _ (encode_message : GatewayFrame → List ℕ) where
  pub announce-Undoes :
      (body : Body) (change : Call (Unit {0})) (s : Session)
      → IsReady change
      → Undoes (announce encode_message body change) s
  announce-Undoes body change s ready = undo_bind _ _ s λ size. undo_check _ _ s λ room.
      undo_then change _ s (ready.undoes s)
        λ h. control-Succeeds (item body size) _ (ready.roomy s size room)

  pub queue_control_body-Undoes :
      (body : Body) (s : Session) → Undoes (queue_control_body encode_message body) s
  unfolding queue_control_body with_scheduler
  queue_control_body-Undoes body s = undo_bind _ _ s λ size e h.
      ap (λ q. record s { scheduler = q }) (enqueue_control_same (item body size) s.scheduler e h)

stream_succeeds :
    (id : ℕ) (i : OutboundItem Body) (s : Session)
    → can_enqueue_stream s.scheduler id i.accounted_bytes ≡ ok tt
    → (with_scheduler (enqueue_stream id i) s).1 ≡ ok tt
unfolding with_scheduler
stream_succeeds id i s h = enqueue_stream_ok id i s.scheduler h

returns : (n : ℕ) (s : Session) → Succeeds {E = ProtocolError} (return n) s
unfolding return
returns n s = (n, refl)

-- The data of a stream: the ledger pays, and the scheduler takes what it was asked for.
pub data-Undoes :
    (o : Flow.Op) (id consumed : ℕ) (i : OutboundItem Body) (s : Session)
    → Undoes
        (check (λ t. can_enqueue_stream t.scheduler id i.accounted_bytes)
          >> (with_flow (Flow.perform o)
              >> (with_scheduler (enqueue_stream id i) >> return consumed)))
        s
data-Undoes o id consumed i s = undo_check _ _ s λ room. undo_then _ _ s (flow-Undoes o s) λ h.
    then-Succeeds _ _ _
      (stream_succeeds id i _ (
        subst (λ q. can_enqueue_stream q id i.accounted_bytes ≡ ok tt) (sym (flow-scheduler o s))
          room))
      (returns consumed _)
