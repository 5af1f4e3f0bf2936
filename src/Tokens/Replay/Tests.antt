-- ===== src/Tokens/Replay/Tests.antt =====
-- A redemption that is tried again.
use vpn_ne_vpn.Prelude.{ℕ, ◌≡◌, refl, ok, err, List, [], ◌∷◌, arith, inr}
use vpn_ne_vpn.Tokens.Replay.{TokenReservation, already_reserved, retain_live, reserve}
use vpn_ne_vpn.Tokens.Replay.Refusal.{Op, reserves, releases, run, replay_refused}

abbrev redemption : ℕ → ℕ → TokenReservation
redemption session now = record {
  token_id = 7;
  session_id = session;
  now = now;
  expires_at = 100;
  max_active_sessions = 2;
}

abbrev between : List Op
between =
    reserves (redemption 2 20)
    ∷ releases (record { token_id = 7; session_id = 2 })
    ∷ reserves (redemption 3 30)
    ∷ []

-- After the token has expired, the store knows nothing of it.
reserve-late :
    (reserve (redemption 1 100) (reserve (redemption 1 10) []).0).1
    ≡ ok (record { token_id = 7; session_id = 1 })
unfolding reserve retain_live
reserve-late = refl

replay_refused_example :
    (reserve (redemption 1 99) (run (reserve (redemption 1 10) []).0 between)).1
    ≡ err already_reserved
unfolding reserve retain_live
replay_refused_example =
    replay_refused (redemption 1 10) (redemption 1 99) [] (record { token_id = 7; session_id = 1 })
      (record { expires_at = 100; sessions = 1 ∷ [] }) between refl refl
      (
        (omega arith, inr (omega arith)),
        (inr (omega arith), ((omega arith, inr (omega arith)), tt)),
      )
      refl refl (omega arith)
