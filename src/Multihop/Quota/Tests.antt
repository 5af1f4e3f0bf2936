-- ===== src/Multihop/Quota/Tests.antt =====
-- Histories of the quota, and its theorems at them.
use vpn_ne_vpn.Prelude.{ℕ, ◌+◌, ◌-◌, ◌*◌, ◌≤◌, ◌≡◌, refl, false, List, [], ◌∷◌, arith}
use vpn_ne_vpn.Prelude.Maps.{string_eq}
use vpn_ne_vpn.Multihop.Quota.{
  EntryQuotaLimits, EntryState, EntryQuotaManager, session_permit, new, charge_bytes,
  acquire_session, acquire_connection, release,
}
use vpn_ne_vpn.Multihop.Quota.Permits.{Exit, Op, connects, opens, charges, drops, run, IsValid}
use vpn_ne_vpn.Multihop.Quota.Runs.{quota_is_exact}
use vpn_ne_vpn.Multihop.Quota.Bandwidth.{accepted, accepted-le}

abbrev small : EntryQuotaLimits
small = record {
  maximum_entries = 1;
  maximum_connections_per_entry = 2;
  maximum_sessions_per_entry = 3;
  bytes_per_second = 1000;
  burst_bytes = 500;
}

abbrev idle : EntryQuotaManager
idle = record { limits = small; entries = []; is_draining = false }

abbrev history : List Op
history =
    connects "entry-a" 0
    ∷ connects "entry-b" 5
    ∷ opens "entry-a"
    ∷ charges "entry-a" 400 10
    ∷ drops 1
    ∷ []

abbrev used : EntryState
used = record { connections = 0; sessions = 1; available_bytes = 100; last_refill = 0 }

abbrev after_history : Exit
after_history = record {
  manager = record { limits = small; entries = ("entry-a", used) ∷ []; is_draining = false };
  permits = session_permit "entry-a" ∷ [];
}

run-history : run (record { manager = idle; permits = [] }) history ≡ after_history
unfolding run acquire_session acquire_connection release charge_bytes
run-history = refl

-- An entry that drops its last permit and connects again has a full bucket.
run-reconnect :
    (run after_history (drops 0 ∷ connects "entry-a" 11 ∷ [])).manager.entries
    ≡ ("entry-a", record { connections = 1; sessions = 0; available_bytes = 500; last_refill = 11 })
      ∷ []
unfolding run acquire_connection release
run-reconnect = refl

quota_is_exact_example : IsValid (run (record { manager = idle; permits = [] }) history)
unfolding new
quota_is_exact_example = quota_is_exact small idle history refl

-- 300 bytes are refused at first and accepted after half a second.
abbrev attempts : List (ℕ × ℕ)
attempts = (300, 20) ∷ (300, 500000000) ∷ []

accepted-attempts : accepted "entry-a" after_history.manager attempts ≡ 300
unfolding accepted charge_bytes
accepted-attempts = refl

accepted-le_example :
    accepted "entry-a" after_history.manager attempts * 1000000000
    ≤ 100 * 1000000000 + 1000 * (500000000 - 0)
accepted-le_example =
    accepted-le "entry-a" 500000000 attempts after_history.manager used refl (omega arith)
      (omega arith, (omega arith, tt))
