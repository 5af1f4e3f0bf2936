-- ===== src/Multihop/Pool/Tests.antt =====
-- A pool of two connections, one for each exit.
use vpn_ne_vpn.Prelude.{◌≡◌, refl, List, [], ◌∷◌}
use vpn_ne_vpn.Multihop.Pool.{
  PoolLimits, ConnectionPoolLimiter, new, try_acquire, drop_permit, Op, acquires, drops, perform,
  run,
}
use vpn_ne_vpn.Multihop.Pool.Exact.{IsExact, new-run-IsExact}

abbrev limits : PoolLimits
limits = record { maximum_total_connections = 2; maximum_connections_per_exit = 1 }

abbrev pool : ConnectionPoolLimiter
pool = record { total = 2; per_exit = []; limits = limits }

abbrev calls : List Op
calls = acquires "exit-a" ∷ acquires "exit-a" ∷ acquires "exit-b" ∷ drops "exit-a" ∷ []

calls_end : run (record { pool = pool; permits = [] }) calls ≡ record {
  pool = record { total = 1; per_exit = ("exit-b", 1) ∷ []; limits = limits };
  permits = "exit-b" ∷ [];
}
unfolding run perform try_acquire drop_permit
calls_end = refl

new-run-IsExact_example : IsExact (run (record { pool = pool; permits = [] }) calls)
unfolding new
new-run-IsExact_example = new-run-IsExact limits pool calls refl
