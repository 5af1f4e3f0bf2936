-- ===== src/GatewayProtocol/Session/Flush.antt =====
-- crates/gateway-protocol/src/session.rs: `flush_all`. The transport answers each write by the number of
-- its frame.
pub mod Drained
use vpn_ne_vpn.Prelude.{ℕ, zero, suc, Result, ok, err, Option, some, none, List, unwrap_or}
use vpn_ne_vpn.GatewayProtocol.Error.{ProtocolError}
use vpn_ne_vpn.GatewayProtocol.Messages.{GatewayFrame}
use vpn_ne_vpn.GatewayProtocol.Scheduler.Drain.{frames}
use vpn_ne_vpn.GatewayProtocol.Session.{Session, Call}
use vpn_ne_vpn.GatewayProtocol.Session.Inbound.{flush_one}

-- How the loop ended, or `none` if its rounds ran out before its own test ended it.
abbrev pub Flushed : Type 0
Flushed = Option (Session × Result ProtocolError (Unit {0}))

-- A round, and the next rounds where a frame was sent.
abbrev pub carry_on :
    Session × Result ProtocolError (Option GatewayFrame) → (Session → Flushed) → Flushed
carry_on (s, ok (some frame)) next = next s
carry_on (s, ok none) next = some (s, ok tt)
carry_on (s, err e) next = some (s, err e)

module _ (encode_message : GatewayFrame → List ℕ)
    (written : ℕ → Result ProtocolError (Unit {0})) where
  unfoldable pub flush_rounds : ℕ → Session → Flushed
  unfolding flush_one
  flush_rounds zero s = none
  flush_rounds (suc fuel) s =
      carry_on (flush_one encode_message (written s.next_send_sequence) s) (flush_rounds fuel)

  -- One round more than frames are queued; the default is for the `none` of the bound.
  unfoldable pub flush_all : Call (Unit {0})
  unfolding flush_rounds
  flush_all s = unwrap_or (flush_rounds (suc (frames s.scheduler)) s) (s, ok tt)
