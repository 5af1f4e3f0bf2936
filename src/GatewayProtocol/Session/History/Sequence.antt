-- ===== src/GatewayProtocol/Session/History/Sequence.antt =====
-- crates/gateway-protocol/src/session.rs: the numbers of the frames that are accepted.
use vpn_ne_vpn.Prelude.{
  ℕ, ◌≤◌, ◌<◌, ◌≡◌, ◌≢◌, refl, ap, ok, Option, List, [], ◌∷◌, arith, Bool, true, false, ◌==◌,
}
use vpn_ne_vpn.Prelude.Outcomes.{ran_get, ran_modify, ran_require, ran_lift}
use vpn_ne_vpn.Prelude.Keeps.{
  Preorder, Keeps, moves_get, moves_require, moves_fail_if, moves_lift, ◌>>◌, resume, modify-Keeps,
}
use vpn_ne_vpn.GatewayProtocol.Messages.{GatewayFrame, Body}
use vpn_ne_vpn.GatewayProtocol.Session.{Session, Call}
use vpn_ne_vpn.GatewayProtocol.Session.Inbound.{accept_frame, check_sequence, in_order}
use vpn_ne_vpn.GatewayProtocol.Session.Handshake.{NegotiatedParameters, configure_negotiated}
use vpn_ne_vpn.GatewayProtocol.Session.Traffic.{applied-Keeps, checked_add-grows}
use vpn_ne_vpn.GatewayProtocol.Session.History.{Event, asks, configures, live, perform}
use vpn_ne_vpn.GatewayProtocol.Session.History.Contract.{perform-Advances}

abbrev counting : Preorder Session
counting = record {
  Rel = λ s t. s.next_receive_sequence ≤ t.next_receive_sequence;
  stays = λ s. omega arith;
  joins = λ s t u h l. omega (arith, h, l);
}

in_order_ran :
    {B : Type 0} {b : B} (c : Bool) (k : Call B) (s t : Session)
    → resume (λ _. k) (in_order c s).0 (in_order c s).1 ≡ (t, ok b)
    → (c ≡ true) × (k s ≡ (t, ok b))
in_order_ran false k s t h = absurd (cc (ap (λ x. x.1) h))
in_order_ran true k s t h = (refl, h)

ran_sequence :
    {B : Type 0} {b : B} (n : ℕ) (k : Call B) (s t : Session)
    → (check_sequence n >> k) s ≡ (t, ok b)
    → ((n == s.next_receive_sequence) ≡ true) × (k s ≡ (t, ok b))
unfolding check_sequence ◌>>◌
ran_sequence n k s t h = in_order_ran (n == s.next_receive_sequence) k s t h

-- A frame is accepted under the number that is next, and that number is then spent.
accept_frame-sequence :
    (frame : GatewayFrame) (now : ℕ) (s t : Session) (body : Body)
    → accept_frame frame now s ≡ (t, ok body)
    → (frame.sequence ≡ s.next_receive_sequence)
      × (s.next_receive_sequence < t.next_receive_sequence)
unfolding accept_frame
accept_frame-sequence frame now s t body h =
    let n = ran_sequence _ _ _ _ (ran_require _ _ (ran_get _ h)).1 in
    let a = ran_lift _ _ n.1 in
    let after = ran_modify _ _ a.1.1 in
    let moved = (applied-Keeps frame now).moves (record s { next_receive_sequence = a.0 }) in
    let last = ap (λ r. r.0.next_receive_sequence) after in
    (ground (arith, n.0), omega (arith, checked_add-grows _ _ _ a.1.0, moved.receives, last))

configure-Keeps : (p : NegotiatedParameters) → Keeps counting (configure_negotiated p)
unfolding configure_negotiated
configure-Keeps p = record {
  moves = λ s. moves_get counting _ s (
      moves_fail_if counting _ _ _ s (
        moves_fail_if counting _ _ _ s (
          moves_lift counting _ _ s λ flow e. moves_require counting _ _ s (
            moves_fail_if counting _ _ _ s ((modify-Keeps counting _ λ t. omega arith).moves s)))));
}

module _ (encode_message : GatewayFrame → List ℕ)
    (decode_message : List ℕ → Option GatewayFrame) where
  live_counts :
      (es : List Event) (s : Session)
      → s.next_receive_sequence ≤ (live encode_message decode_message s es).next_receive_sequence
  unfolding live
  live_counts [] s = omega arith
  live_counts (asks o ∷ es) s = omega (
    arith,
    (perform-Advances encode_message decode_message s o).receives,
    live_counts es (perform encode_message decode_message o s),
  )
  live_counts (configures p ∷ es) s =
      omega (arith, (configure-Keeps p).moves s, live_counts es (configure_negotiated p s).0)

  -- No frame is accepted twice: once a frame is accepted, no frame with its number or a lower one is
  -- accepted, whatever happens to the session in between, a new handshake step included.
  pub accept_frame_once :
      (first second : GatewayFrame) (now later : ℕ) (s t u : Session) (body again : Body)
      (es : List Event)
      → accept_frame first now s ≡ (t, ok body)
      → second.sequence ≤ first.sequence
      → accept_frame second later (live encode_message decode_message t es) ≢ (u, ok again)
  accept_frame_once first second now later s t u body again es h l again_ok =
      let a = accept_frame-sequence first now s t body h in
      let b =
        accept_frame-sequence second later (live encode_message decode_message t es) u again
          again_ok in
      omega (arith, a.0, a.1, b.0, l, live_counts es t)
