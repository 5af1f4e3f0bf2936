-- ===== src/GatewayProtocol/Session/Advance.antt =====
-- crates/gateway-protocol/src/session.rs: what every call of a session does to its parts, put as a
-- preorder on sessions.
use vpn_ne_vpn.Prelude.{
  ℕ, ◌≤◌, ◌<◌, ◌≡◌, ◌⊎◌, refl, sym, ap, ◌∙◌, true, Option, some, none, List, [], ◌∷◌, ◌++◌, String,
  arith, inl,
}
use vpn_ne_vpn.Prelude.Maps.{string_eq}
use vpn_ne_vpn.Prelude.Sets.{contains}
use vpn_ne_vpn.Prelude.Keeps.{Preorder}
use vpn_ne_vpn.GatewayProtocol.Messages.{Body}
use vpn_ne_vpn.GatewayProtocol.Flow
use vpn_ne_vpn.GatewayProtocol.Flow.{FlowController}
use vpn_ne_vpn.GatewayProtocol.Scheduler
use vpn_ne_vpn.GatewayProtocol.Scheduler.{FairScheduler, OutboundItem}
use vpn_ne_vpn.GatewayProtocol.Session.{
  Session, SessionPhase, awaiting_server_hello, awaiting_client_hello, awaiting_authentication,
  awaiting_authentication_result, active, draining, closed_phase,
}

-- The order of a session's life: before the hellos, before the authentication, and after it.
abbrev pub age : SessionPhase → ℕ
age awaiting_server_hello = 0
age awaiting_client_hello = 0
age awaiting_authentication = 1
age awaiting_authentication_result = 1
age active = 2
age draining = 3
age closed_phase = 4

pub age_bounded : (p : SessionPhase) → age p ≤ 4
age_bounded active = omega arith
age_bounded draining = omega arith
age_bounded closed_phase = omega arith
age_bounded awaiting_server_hello = omega arith
age_bounded awaiting_client_hello = omega arith
age_bounded awaiting_authentication = omega arith
age_bounded awaiting_authentication_result = omega arith

-- The phase stays, ages once the hellos are exchanged, or is closed.
abbrev pub Ages : SessionPhase → SessionPhase → Type 0
Ages p q = (q ≡ p) ⊎ (((0 < age p) × (age p < age q)) ⊎ (age q ≡ 4))

Ages-trans : (p q r : SessionPhase) → Ages p q → Ages q r → Ages p r
Ages-trans p q r h l = ground (arith, h, l, age_bounded r)

-- A history of calls leads from one ledger to the other.
abbrev pub LedgerRuns : Option FlowController → Option FlowController → Type 0
LedgerRuns none none = Unit {0}
LedgerRuns (some f) (some g) = (os : List Flow.Op) × (g ≡ Flow.run f os)
LedgerRuns _ _ = ⊥

abbrev pub SchedulerRuns : FairScheduler Body → FairScheduler Body → Type 0
SchedulerRuns s t = (os : List (Scheduler.Op Body)) × (t ≡ Scheduler.run s os)

pub record Advances (s t : Session) : Type 0 where
  pub ledger : LedgerRuns s.flow t.flow
  pub queue : SchedulerRuns s.scheduler t.scheduler
  pub older : Ages s.phase t.phase
  pub role : t.local_role ≡ s.local_role
  pub identity : (t.session_id ≡ s.session_id) × (t.selected_version ≡ s.selected_version)
  pub sends : s.next_send_sequence ≤ t.next_send_sequence
  pub receives : s.next_receive_sequence ≤ t.next_receive_sequence
  pub granted :
      (c : String)
      → contains t.enabled_capabilities c ≡ true
      → contains s.enabled_capabilities c ≡ true

flow_run-append :
    (xs ys : List Flow.Op) (f : FlowController)
    → Flow.run f (xs ++ ys) ≡ Flow.run (Flow.run f xs) ys
unfolding Flow.run
flow_run-append [] ys f = refl
flow_run-append (x ∷ xs) ys f = flow_run-append xs ys (Flow.perform x f).0

queue_run-append :
    (xs ys : List (Scheduler.Op Body)) (s : FairScheduler Body)
    → Scheduler.run s (xs ++ ys) ≡ Scheduler.run (Scheduler.run s xs) ys
unfolding Scheduler.run
queue_run-append [] ys s = refl
queue_run-append (x ∷ xs) ys s = queue_run-append xs ys (Scheduler.perform x s)

pub LedgerRuns_refl : (f : Option FlowController) → LedgerRuns f f
unfolding Flow.run
LedgerRuns_refl none = tt
LedgerRuns_refl (some f) = ([], refl)

pub LedgerRuns_trans :
    (f g h : Option FlowController) → LedgerRuns f g → LedgerRuns g h → LedgerRuns f h
LedgerRuns_trans none none none a b = tt
LedgerRuns_trans (some f) (some g) (some h) (xs, p) (ys, q) =
    (xs ++ ys, q ∙ ap (λ x. Flow.run x ys) p ∙ sym (flow_run-append xs ys f))
LedgerRuns_trans none (some g) h a b = absurd a
LedgerRuns_trans (some f) none h a b = absurd a
LedgerRuns_trans none none (some h) a b = absurd b
LedgerRuns_trans (some f) (some g) none a b = absurd b

pub Advances_refl : (s : Session) → Advances s s
unfolding Scheduler.run
Advances_refl s = record {
  ledger = LedgerRuns_refl s.flow;
  queue = ([], refl);
  older = inl refl;
  role = refl;
  identity = (refl, refl);
  sends = omega arith;
  receives = omega arith;
  granted = λ c h. h;
}

pub Advances_trans : (s t u : Session) → Advances s t → Advances t u → Advances s u
Advances_trans s t u a b = record {
  ledger = LedgerRuns_trans s.flow t.flow u.flow a.ledger b.ledger;
  queue = (
    a.queue.0 ++ b.queue.0,
    b.queue.1
        ∙ ap (λ x. Scheduler.run x b.queue.0) a.queue.1
        ∙ sym (queue_run-append a.queue.0 b.queue.0 s.scheduler),
  );
  older = Ages-trans _ _ _ a.older b.older;
  role = b.role ∙ a.role;
  identity = (b.identity.0 ∙ a.identity.0, b.identity.1 ∙ a.identity.1);
  sends = omega (arith, a.sends, b.sends);
  receives = omega (arith, a.receives, b.receives);
  granted = λ c h. a.granted c (b.granted c h);
}

abbrev pub advancing : Preorder Session
advancing = record { Rel = Advances; stays = Advances_refl; joins = Advances_trans }
