-- ===== src/GatewayProtocol/Session/Traffic.antt =====
-- crates/gateway-protocol/src/session.rs: frames that go out and come in, `begin_go_away` and the end of
-- the handshake advance the session.
use vpn_ne_vpn.Prelude.{
  ℕ, ◌≤◌, ◌<◌, ◌≡◌, ◌⊎◌, refl, Bool, true, false, Result, ok, err, ok_or, checked_add, Option, some,
  none, List, length, arith, inl, inr, if◌then◌else◌, not, ◌||◌, ◌==◌, any, String,
}
use vpn_ne_vpn.Prelude.Keeps.{modify, lift, return, ◌>>=◌, ◌>>◌, check, resume}
use vpn_ne_vpn.Prelude.Keeps.{
  Keeps, modify-Keeps, moves_get, moves_check, moves_require, moves_unless, moves_lift,
  moves_modify, moves_then, moves_if,
}
use vpn_ne_vpn.Prelude.Maps.{string_eq}
use vpn_ne_vpn.Prelude.Sets.{contains, collect, contains_all}
use vpn_ne_vpn.GatewayProtocol.Error.{ProtocolError, closed, missing_body}
use vpn_ne_vpn.GatewayProtocol.Messages
use vpn_ne_vpn.GatewayProtocol.Messages.{
  Body, GatewayFrame, GoAway, open_tcp_stream, tcp_stream_opened, tcp_stream_rejected, data_frame,
  window_update, half_close, close_stream, resolve_domain, resolve_result, rotate_session,
  session_rotated, ping, pong, error_frame, go_away, Error,
}
use vpn_ne_vpn.GatewayProtocol.Flow
use vpn_ne_vpn.GatewayProtocol.Scheduler.{OutboundItem, pop_next}
use vpn_ne_vpn.GatewayProtocol.Session.{
  Session, SessionPhase, Call, active, draining, closed_phase, is_active, is_draining,
  awaiting_server_hello, awaiting_client_hello, awaiting_authentication,
  awaiting_authentication_result, require_active_or_draining, is_closed,
}
use vpn_ne_vpn.GatewayProtocol.Session.Advance.{
  Advances, Advances_refl, Advances_trans, advancing, age,
}
use vpn_ne_vpn.GatewayProtocol.Session.Calls.{queue_control_body-Keeps}
use vpn_ne_vpn.GatewayProtocol.Session.Steps.{
  ◌then◌, ◌bind◌, checked, lifted, failed, got, returned, flow-Keeps, cancel-Keeps, popped, closes,
  drains, drained, similar, renumbered,
}
use vpn_ne_vpn.GatewayProtocol.Session.Handshake.{
  awaits_result, mark_active, set_granted_capabilities,
}
use vpn_ne_vpn.GatewayProtocol.Session.Outbound.{begin_go_away}
use vpn_ne_vpn.GatewayProtocol.Session.Inbound.{
  apply_active_inbound, apply_in, apply_inbound, close_on_error, send_item, flush_one_inner,
  flush_one, accept_frame, check_sequence, in_order, validate_frame_context, receive_inner, receive,
}

live :
    (p : SessionPhase)
    → (if not (is_active p || is_draining p) then err closed else ok tt) ≡ ok tt
    → (p ≡ active) ⊎ (p ≡ draining)
live active e = inl refl
live draining e = inr refl
live closed_phase e = cc e
live awaiting_server_hello e = cc e
live awaiting_client_hello e = cc e
live awaiting_authentication e = cc e
live awaiting_authentication_result e = cc e

pub on_error-Keeps :
    {A : Type 0} (s : Session) (r : Session × Result ProtocolError A)
    → Advances s r.0
    → Advances s (close_on_error r).0
on_error-Keeps s (t, ok a) h = h
on_error-Keeps s (t, err e) h = closes s t h

fatal-Keeps :
    (fatal : Bool)
    → Keeps advancing (
        if fatal
        then modify {E = ProtocolError} (λ s. record s { phase = closed_phase })
        else return tt)
fatal-Keeps true = modify-Keeps advancing _ λ s. closes s s (Advances_refl s)
fatal-Keeps false = returned _

active_moves :
    (body : Body) (now : ℕ) (s : Session)
    → (s.phase ≡ active) ⊎ (s.phase ≡ draining)
    → Advances s (apply_active_inbound body now s).0
unfolding apply_active_inbound Flow.perform modify
active_moves (open_tcp_stream m) now s h =
    (checked _ then got bind λ t.
    failed _ _ then flow-Keeps (Flow.receives_open m.stream_id m.initial_receive_window now)).moves
      s
active_moves (error_frame m) now s h = (fatal-Keeps m.fatal).moves s
active_moves (tcp_stream_opened m) now s h =
    (checked _ then got bind λ t.
    failed _ _ then flow-Keeps (Flow.confirms m.stream_id m.initial_receive_window now)).moves
      s
active_moves (tcp_stream_rejected m) now s h =
    (checked _ then got bind λ t. failed _ _ then flow-Keeps (Flow.closes m.stream_id)).moves s
active_moves (data_frame m) now s h =
    (checked _ then flow-Keeps (Flow.receives m.stream_id (length m.payload) now)).moves s
active_moves (window_update m) now s h =
    (checked _ then flow-Keeps (Flow.updates m.stream_id m.credit now)).moves s
active_moves (half_close m) now s h =
    (checked _ then flow-Keeps (Flow.receives_half_close m.stream_id now)).moves s
active_moves (close_stream m) now s h =
    (checked _ then cancel-Keeps m.stream_id then flow-Keeps (Flow.closes m.stream_id)).moves s
active_moves (resolve_domain m) now s h =
    (checked _ then got bind λ u.
    failed _ _ then failed _ _ then modify-Keeps advancing _ λ t. similar t _ _ _ _).moves
      s
active_moves (resolve_result m) now s h =
    (checked _ then got bind λ u.
    failed _ _ then modify-Keeps advancing _ λ t. similar t _ _ _ _).moves
      s
active_moves (rotate_session m) now s h = (checked _).moves s
active_moves (session_rotated m) now s h = (checked _).moves s
active_moves (go_away m) now s h = drained s h
active_moves (ping n) now s h = (returned _).moves s
active_moves (pong n) now s h = (returned _).moves s
active_moves _ now s h = Advances_refl s

apply_moves :
    (p : SessionPhase) (body : Body) (now : ℕ) (s : Session)
    → s.phase ≡ p
    → Advances s (apply_in p body now s).0
apply_moves active body now s e = active_moves body now s (inl e)
apply_moves draining body now s e = active_moves body now s (inr e)
apply_moves closed_phase body now s e = (lifted _).moves s
apply_moves awaiting_server_hello body now s e = (failed _ _).moves s
apply_moves awaiting_client_hello body now s e = (failed _ _).moves s
apply_moves awaiting_authentication body now s e = (failed _ _).moves s
apply_moves awaiting_authentication_result body now s e = (failed _ _).moves s

apply_inbound-Keeps : (body : Body) (now : ℕ) → Keeps advancing (apply_inbound body now)
unfolding apply_inbound
apply_inbound-Keeps body now = record { moves = λ s. apply_moves s.phase body now s refl }

pub checked_add-grows :
    (n next : ℕ) (e : ProtocolError) → ok_or (checked_add n 1) e ≡ ok next → n < next
checked_add-grows n next e h = ground (arith, h)

later : (n next : ℕ) (e : ProtocolError) → ok_or (checked_add n 1) e ≡ ok next → n ≤ next
later n next e h = omega (arith, checked_add-grows n next e h)

-- What follows once the frame's number is spent.
pub applied-Keeps :
    (frame : GatewayFrame) (now : ℕ)
    → Keeps advancing (do
      check (validate_frame_context frame)
      body ← lift (ok_or frame.body missing_body)
      apply_inbound body now
      return body)
applied-Keeps frame now =
    checked _ then lifted _ bind λ body. apply_inbound-Keeps body now then returned _

in_order_moves :
    {B : Type 0} (b : Bool) (k : Call B) (s : Session)
    → Advances s (k s).0
    → Advances s (resume (λ _. k) (in_order b s).0 (in_order b s).1).0
in_order_moves false k s h = closes s s (Advances_refl s)
in_order_moves true k s h = h

moves_sequence :
    {B : Type 0} (n : ℕ) (k : Call B) (s : Session)
    → Advances s (k s).0
    → Advances s ((check_sequence n >> k) s).0
unfolding check_sequence ◌>>◌
moves_sequence n k s h = in_order_moves (n == s.next_receive_sequence) k s h

accept_frame-Keeps : (frame : GatewayFrame) (now : ℕ) → Keeps advancing (accept_frame frame now)
unfolding accept_frame
accept_frame-Keeps frame now = record {
  moves = λ s. moves_get advancing _ s (
      moves_require advancing _ _ s (
        moves_sequence _ _ s (
          moves_lift advancing _ _ s λ next e.
            moves_modify advancing _ _ s
              (renumbered s s.next_send_sequence next (omega arith) (later _ _ _ e))
              (applied-Keeps frame now))));
}

module _ (encode_message : GatewayFrame → List ℕ) where
  send_item-Keeps :
      (written : Result ProtocolError (Unit {0})) (i : Option (OutboundItem Body))
      → Keeps advancing (send_item encode_message written i)
  send_item-Keeps written none = returned _
  send_item-Keeps written (some i) = record {
    moves = λ s. moves_get advancing _ s (
        moves_lift advancing _ _ s λ next e.
          moves_modify advancing _ _ s
            (renumbered s next s.next_receive_sequence (later _ _ _ e) (omega arith))
            (lifted _ then lifted _ bind λ bytes. lifted _ then returned _));
  }

  flush_one_inner-Keeps :
      (written : Result ProtocolError (Unit {0}))
      → Keeps advancing (flush_one_inner encode_message written)
  unfolding flush_one_inner
  flush_one_inner-Keeps written = record {
    moves = λ s.
        Advances_trans s _ _ (popped s)
          ((send_item-Keeps written (pop_next s.scheduler).1).moves _);
  }

  pub flush_one-Keeps :
      (written : Result ProtocolError (Unit {0}))
      → Keeps advancing (flush_one encode_message written)
  unfolding flush_one
  flush_one-Keeps written = record {
    moves = λ s.
        moves_if advancing (is_closed s.phase) s _ _ (Advances_refl s)
          (on_error-Keeps s _ ((flush_one_inner-Keeps written).moves s));
  }

  pub begin_go_away-Keeps : (m : GoAway) → Keeps advancing (begin_go_away encode_message m)
  unfolding begin_go_away modify require_active_or_draining
  begin_go_away-Keeps m = record {
    moves = λ s. moves_check advancing _ _ s λ e.
        let a = (queue_control_body-Keeps encode_message (Messages.go_away m)).moves s in
        moves_then advancing _ _ s a (drains s _ a (live s.phase e));
  }

module _ (decode_message : List ℕ → Option GatewayFrame) where
  receive_inner-Keeps :
      (input : List ℕ) (now : ℕ) → Keeps advancing (receive_inner decode_message input now)
  unfolding receive_inner
  receive_inner-Keeps input now =
      got bind λ s. failed _ _ then lifted _ bind λ r. accept_frame-Keeps r.0 now

  pub receive-Keeps :
      (input : List ℕ) (now : ℕ) → Keeps advancing (receive decode_message input now)
  unfolding receive
  receive-Keeps input now = record {
    moves = λ s. on_error-Keeps s _ ((receive_inner-Keeps input now).moves s);
  }

youth : (p : SessionPhase) → awaits_result p ≡ true → age p ≡ 1
youth awaiting_authentication e = refl
youth awaiting_authentication_result e = refl
youth active e = cc e
youth draining e = cc e
youth closed_phase e = cc e
youth awaiting_server_hello e = cc e
youth awaiting_client_hello e = cc e

activates : (s : Session) → awaits_result s.phase ≡ true → Advances s (record s { phase = active })
activates s h =
    let a = Advances_refl s in
    record {
      ledger = a.ledger;
      queue = a.queue;
      older = inr (inl (omega (arith, youth s.phase h), omega (arith, youth s.phase h)));
      role = a.role;
      identity = a.identity;
      sends = a.sends;
      receives = a.receives;
      granted = a.granted;
    }

pub mark_active-Keeps : Keeps advancing mark_active
unfolding mark_active modify
mark_active-Keeps = record {
  moves = λ s.
      moves_get advancing _ s (moves_unless advancing _ _ _ s λ e. activates s (ground (arith, e)));
}

grants :
    (s : Session) (granted : List String)
    → any (λ c. not (contains s.enabled_capabilities c)) (collect granted) ≡ false
    → Advances s (record s { enabled_capabilities = collect granted })
grants s granted h =
    let a = Advances_refl s in
    record {
      ledger = a.ledger;
      queue = a.queue;
      older = a.older;
      role = a.role;
      identity = a.identity;
      sends = a.sends;
      receives = a.receives;
      granted = λ c m. contains_all s.enabled_capabilities (collect granted) c h m;
    }

pub set_granted-Keeps : (granted : List String) → Keeps advancing (set_granted_capabilities granted)
unfolding set_granted_capabilities modify
set_granted-Keeps granted = lifted _ then record {
  moves = λ s.
      moves_get advancing _ s
        (moves_unless advancing _ _ _ s λ e. grants s granted (ground (arith, e)));
}
