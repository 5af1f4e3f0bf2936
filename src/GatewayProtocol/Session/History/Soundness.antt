-- ===== src/GatewayProtocol/Session/History/Soundness.antt =====
-- crates/gateway-protocol/src/session.rs: what holds of a session in all its life, the handshake
-- included.
use vpn_ne_vpn.Prelude.{
  ℕ, ◌≤◌, ◌<◌, ◌≡◌, ◌⊎◌, refl, sym, subst, ok, Option, some, none, List, [], ◌∷◌, arith, inl, inr,
  Result-cases, length, u64_max, true,
}
use vpn_ne_vpn.Prelude.Maps.{is_some}
use vpn_ne_vpn.Prelude.Keeps.{
  Preorder, moves_get, moves_require, moves_fail_if, moves_unless, moves_lift, modify,
}
use vpn_ne_vpn.GatewayProtocol.Limits.{ProtocolLimits}
use vpn_ne_vpn.GatewayProtocol.Negotiation.{ProtocolVersion}
use vpn_ne_vpn.GatewayProtocol.Messages.{GatewayFrame, Body}
use vpn_ne_vpn.GatewayProtocol.Flow.{FlowController}
use vpn_ne_vpn.GatewayProtocol.Flow.Invariant as Ledger
use vpn_ne_vpn.GatewayProtocol.Scheduler
use vpn_ne_vpn.GatewayProtocol.Scheduler.Invariant as Queue
use vpn_ne_vpn.GatewayProtocol.Scheduler.Runs
use vpn_ne_vpn.GatewayProtocol.Session.{
  Session, PeerRole, SessionPhase, new_client, new_server, new_session,
}
use vpn_ne_vpn.GatewayProtocol.Session.Handshake.{NegotiatedParameters, configure_negotiated}
use vpn_ne_vpn.GatewayProtocol.Session.Advance.{Advances, LedgerRuns, age, age_bounded}
use vpn_ne_vpn.GatewayProtocol.Session.History.{Event, asks, configures, live, happens}
use vpn_ne_vpn.GatewayProtocol.Session.History.Contract.{perform-Advances}

abbrev IsLedger : Option FlowController → Type 0
IsLedger none = Unit {0}
IsLedger (some f) = Ledger.IsValid f

-- The hellos were exchanged: there is a ledger, a version and an id of 16 bytes.
pub record IsBegun (s : Session) : Type 0 where
  pub ledger : is_some s.flow ≡ true
  pub version : is_some s.selected_version ≡ true
  pub identified : length s.session_id ≡ 16

pub record IsSound (s : Session) : Type 0 where
  pub ledger : IsLedger s.flow
  pub queue : Queue.IsValid s.scheduler
  pub begun : 0 < age s.phase → age s.phase < 4 → IsBegun s

LedgerRuns-IsLedger : (f g : Option FlowController) → LedgerRuns f g → IsLedger f → IsLedger g
LedgerRuns-IsLedger none none r v = tt
LedgerRuns-IsLedger (some f) (some g) (os, e) v =
    subst (λ x. Ledger.IsValid x) (sym e) (Ledger.run-IsValid os f v)
LedgerRuns-IsLedger none (some g) r v = absurd r
LedgerRuns-IsLedger (some f) none r v = tt

LedgerRuns_some : (f g : Option FlowController) → LedgerRuns f g → is_some g ≡ is_some f
LedgerRuns_some none none r = refl
LedgerRuns_some (some f) (some g) r = refl
LedgerRuns_some none (some g) r = absurd r
LedgerRuns_some (some f) none r = absurd r

begun_before : (s t : Session) → Advances s t → 0 < age t.phase → age t.phase < 4 → 0 < age s.phase
begun_before s t a h l = ground (arith, a.older)

Advances-IsBegun : (s t : Session) → Advances s t → IsBegun s → IsBegun t
Advances-IsBegun s t a b = record {
  ledger = ground (arith, LedgerRuns_some s.flow t.flow a.ledger, b.ledger);
  version = ground (arith, a.identity.1, b.version);
  identified = ground (arith, a.identity.0, b.identified);
}

pub Advances-IsSound : (s t : Session) → Advances s t → IsSound s → IsSound t
Advances-IsSound s t a v = record {
  ledger = LedgerRuns-IsLedger s.flow t.flow a.ledger v.ledger;
  queue =
      subst (λ q. Queue.IsValid q) (sym a.queue.1)
        (Scheduler.Runs.run-IsValid a.queue.0 s.scheduler v.queue);
  begun = λ h l.
      Advances-IsBegun s t a
        (v.begun (begun_before s t a h l) (ground (arith, a.older, age_bounded t.phase)));
}

-- To keep a session sound is a preorder too.
abbrev keeping : Preorder Session
keeping = record {
  Rel = λ s t. IsSound s → IsSound t;
  stays = λ s v. v;
  joins = λ s t u f g v. g (f v);
}

configure-IsSound :
    (p : NegotiatedParameters) (s : Session) → IsSound s → IsSound (configure_negotiated p s).0
unfolding configure_negotiated modify
configure-IsSound p s v =
    moves_get keeping _ s
      (moves_unless keeping _ _ _ s λ e. moves_fail_if keeping _ _ _ s (
        moves_lift keeping _ _ s λ flow h. moves_require keeping _ _ s (
          moves_fail_if keeping _ _ _ s (λ w. record {
            ledger = Ledger.new-IsValid _ _ _ flow h;
            queue = w.queue;
            begun = λ a b. record { ledger = refl; version = refl; identified = ground (arith, e) };
          }))))
      v

new_session_parts :
    (role : PeerRole) (phase : SessionPhase) (limits : ProtocolLimits) (version : ProtocolVersion)
    (s : Session)
    → new_session role phase limits version ≡ ok s
    → (s.flow ≡ none)
      × (Scheduler.new limits.maximum_queued_bytes limits.maximum_queued_bytes_per_stream
            limits.maximum_control_frames
          ≡ ok s.scheduler)
      × (s.phase ≡ phase)
unfolding new_session
new_session_parts role phase limits version s h =
    elim (Result-cases (
      Scheduler.new {Body = Body} limits.maximum_queued_bytes limits.maximum_queued_bytes_per_stream
        limits.maximum_control_frames)) [
          | inl (e, r) ↦ absurd (ground (arith, h, r))
          | inr (q, r) ↦ (ground (arith, h, r), ground (arith, h, r), ground (arith, h, r))
        ]

fresh-IsSound :
    (role : PeerRole) (phase : SessionPhase) (limits : ProtocolLimits) (version : ProtocolVersion)
    (s : Session)
    → age phase ≡ 0
    → limits.maximum_queued_bytes ≤ u64_max
    → new_session role phase limits version ≡ ok s
    → IsSound s
fresh-IsSound role phase limits version s a u h =
    let parts = new_session_parts role phase limits version s h in
    record {
      ledger = subst (λ x. IsLedger x) (sym parts.0) tt;
      queue = Queue.new-IsValid _ _ _ _ u parts.1;
      begun = λ old young. absurd (ground (arith, a, parts.2, old));
    }

module _ (encode_message : GatewayFrame → List ℕ)
    (decode_message : List ℕ → Option GatewayFrame) where
  happens-IsSound :
      (e : Event) (s : Session) → IsSound s → IsSound (happens encode_message decode_message e s)
  happens-IsSound (asks o) s v =
      Advances-IsSound s _ (perform-Advances encode_message decode_message s o) v
  happens-IsSound (configures p) s v = configure-IsSound p s v

  live-IsSound :
      (es : List Event) (s : Session)
      → IsSound s
      → IsSound (live encode_message decode_message s es)
  unfolding live
  live-IsSound [] s v = v
  live-IsSound (e ∷ es) s v = live-IsSound es _ (happens-IsSound e s v)

  -- Whatever happens to a client's or a server's session, in any order and whether or not the calls
  -- succeed, the handshake's `configure_negotiated` included: its ledger and its scheduler are valid,
  -- and from the hellos until it is closed it has a ledger, a selected version and an id of 16 bytes.
  -- The limit of queued bytes is a machine word.
  pub new-live-IsSound :
      (limits : ProtocolLimits) (version : ProtocolVersion) (s : Session) (es : List Event)
      → limits.maximum_queued_bytes ≤ u64_max
      → (new_client limits version ≡ ok s) ⊎ (new_server limits version ≡ ok s)
      → IsSound (live encode_message decode_message s es)
  unfolding new_client new_server
  new-live-IsSound limits version s es u (inl h) =
      live-IsSound es s (fresh-IsSound _ _ limits version s refl u h)
  new-live-IsSound limits version s es u (inr h) =
      live-IsSound es s (fresh-IsSound _ _ limits version s refl u h)
