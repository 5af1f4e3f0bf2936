-- ===== src/GatewayProtocol/Flow/Credit.antt =====
-- crates/gateway-protocol/src/flow.rs: where the credit of the connection goes over a history.
use vpn_ne_vpn.Prelude.{
  ℕ, ◌%◌, ◌+◌, ◌≤◌, ◌<◌, ◌≡◌, refl, false, Result, ok, some, List, [], ◌∷◌, if◌then◌else◌, ◌==◌,
  arith, inl, inr, Option-cases, ◌↔◌,
}
use vpn_ne_vpn.Prelude.Maps.{lookup, nat_eq}
use vpn_ne_vpn.GatewayProtocol.Error.{ProtocolError}
use vpn_ne_vpn.GatewayProtocol.Flow.{
  FlowController, StreamState, opened, Op, opens_local, sends, receives, updates, grants, perform,
  run, debit_send,
}

-- The bytes that a call sends, and the credit that it adds for the peer's grants.
abbrev sent : Op → Result ProtocolError (Unit {0}) → ℕ
sent (sends id n t) (ok _) = n
sent _ _ = 0

abbrev credited : Op → Result ProtocolError (Unit {0}) → ℕ
credited (updates id n t) (ok _) = if id == 0 then n else 0
credited _ _ = 0

-- The same for the other direction.
abbrev received : Op → Result ProtocolError (Unit {0}) → ℕ
received (receives id n t) (ok _) = n
received _ _ = 0

abbrev granted : Op → Result ProtocolError (Unit {0}) → ℕ
granted (grants id n t) (ok _) = if id == 0 then n else 0
granted _ _ = 0

perform_credit :
    (o : Op) (f : FlowController)
    → let (g, r) = perform o f in
      (g.connection_send_window + sent o r ≡ f.connection_send_window + credited o r)
      × (g.connection_receive_window + received o r ≡ f.connection_receive_window + granted o r)
unfolding perform
perform_credit (opens_local id w t) f = ground arith
perform_credit _ f = ground arith

-- The sum of a measure over the calls of a history.
unfoldable pub over_run : (Op → Result ProtocolError (Unit {0}) → ℕ) → FlowController → List Op → ℕ
unfolding perform
over_run m f [] = 0
over_run m f (o ∷ os) = m o (perform o f).1 + over_run m (perform o f).0 os

-- Over any history the bytes sent are exactly what the connection's send window lost to them: the
-- window and the bytes sent make up the first window and the credit that the peer granted for the
-- connection. So it is for the bytes received and the receive window.
pub run_credit :
    (os : List Op) (f : FlowController)
    → ((run f os).connection_send_window + over_run sent f os
        ≡ f.connection_send_window + over_run credited f os)
      × ((run f os).connection_receive_window + over_run received f os
          ≡ f.connection_receive_window + over_run granted f os)
unfolding run over_run
run_credit [] f = (refl, refl)
run_credit (o ∷ os) f = omega (arith, perform_credit o f, run_credit os (perform o f).0)

-- A send succeeds exactly if it asks for at least one byte, the connection has the credit, and the
-- id is one of an open stream that is not half closed here and has the credit too.
pub debit_send_iff :
    (id n t : ℕ) (f : FlowController)
    → ((debit_send id n t f).1 ≡ ok tt) ↔ (
        (0 < n)
        × (n ≤ f.connection_send_window)
        × (id % 2 ≡ 1)
        × ((s : StreamState) × (lookup id f.streams ≡ some s)
            × (s.phase ≡ opened)
            × (s.local_half_closed ≡ false)
            × (n ≤ s.send_window)))
unfolding debit_send
debit_send_iff id n t f = elim (Option-cases (lookup id f.streams)) [
  | inl e ↦ (λ h. absurd (ground arith), λ h. absurd (ground arith))
  | inr (s, e) ↦ (
    λ h. (
      ground arith,
      ground arith,
      ground arith,
      (s, ground arith, ground arith, ground arith, ground arith),
    ),
    λ h. ground arith,
  )
]
