-- ===== src/Multihop/Pool.antt =====
-- crates/gateway-multihop/src/mux.rs: the connections that an entry gateway may hold, in all and to each
-- exit. The semaphore is the number of its permits that are left.
pub mod Exact
mod Tests
use vpn_ne_vpn.Prelude.{
  ℕ, ◌+◌, ◌-◌, ◌≤◌, ◌≡◌, refl, Bool, true, false, ◌||◌, if◌then◌else◌, ltb, leb, ◌==◌, Result, ok,
  err, Option, none, some, List, [], ◌∷◌, length, String, Method, resume, ◌>>=◌, ◌>>◌, return, get,
  put, fail_if, unwrap_or, arith, Option-cases, Bool-cases, inl, inr,
}
use vpn_ne_vpn.Prelude.Maps.{Map, lookup, insert, remove, string_eq, lookup-insert, lookup-remove}
use vpn_ne_vpn.Prelude.Sets.{contains}
use vpn_ne_vpn.Prelude.Texts.{is_empty, bytes}
use vpn_ne_vpn.Multihop.Error.{ErrorCode, invalid_configuration, resource_exhausted}

pub record PoolLimits : Type 0 where
  pub maximum_total_connections : ℕ
  pub maximum_connections_per_exit : ℕ

pub record ConnectionPoolLimiter : Type 0 where
  pub total : ℕ
  pub per_exit : Map String ℕ
  pub limits : PoolLimits

unfoldable pub new : PoolLimits → Result ErrorCode ConnectionPoolLimiter
new limits =
    if limits.maximum_total_connections == 0
      || limits.maximum_connections_per_exit == 0
      || ltb limits.maximum_total_connections limits.maximum_connections_per_exit
    then err invalid_configuration
    else ok (record { total = limits.maximum_total_connections; per_exit = []; limits = limits })

-- The permit is given back when the exit has no room. The result is the exit of the permit.
unfoldable pub try_acquire : String → Method ConnectionPoolLimiter ErrorCode String
try_acquire exit_id = do
  pool ← get
  fail_if (is_empty exit_id || ltb 128 (bytes exit_id)) invalid_configuration
  fail_if (pool.total == 0) resource_exhausted
  put (record pool { total = pool.total - 1 })
  let current = unwrap_or (lookup exit_id pool.per_exit) 0
  elim (leb pool.limits.maximum_connections_per_exit current) [
    | true ↦ put pool >> fail_if true resource_exhausted >> return exit_id
    | false ↦
        put (record pool {
          total = pool.total - 1;
          per_exit = insert exit_id (current + 1) pool.per_exit;
        })
        >> return exit_id
  ]

abbrev pub count_down : String → Option ℕ → Map String ℕ → Map String ℕ
count_down exit_id none counts = counts
count_down exit_id (some current) counts =
    if current - 1 == 0 then remove exit_id counts else insert exit_id (current - 1) counts

-- `Drop` of a permit; its field, the semaphore's permit, is dropped after.
unfoldable pub drop_permit : String → ConnectionPoolLimiter → ConnectionPoolLimiter
drop_permit exit_id pool = record pool {
  per_exit = count_down exit_id (lookup exit_id pool.per_exit) pool.per_exit;
  total = pool.total + 1;
}

-- The pool with the permits that its clients hold.
pub record Clients : Type 0 where
  pub pool : ConnectionPoolLimiter
  pub permits : List String

pub data Op : Type 0 where
  acquires drops : String → Op

abbrev pub without : String → List String → List String
without id [] = []
without id (p ∷ ps) = if string_eq.beq p id then ps else p ∷ without id ps

abbrev pub hold : List String → ConnectionPoolLimiter × Result ErrorCode String → Clients
hold ps (pool, ok id) = record { pool = pool; permits = id ∷ ps }
hold ps (pool, err e) = record { pool = pool; permits = ps }

-- A client drops a permit that it holds.
unfoldable pub perform : Op → Clients → Clients
unfolding try_acquire drop_permit
perform (acquires id) c = hold c.permits (try_acquire id c.pool)
perform (drops id) c =
    if contains c.permits id
    then record { pool = drop_permit id c.pool; permits = without id c.permits }
    else c

unfoldable pub run : Clients → List Op → Clients
unfolding perform
run c [] = c
run c (o ∷ os) = run (perform o c) os
