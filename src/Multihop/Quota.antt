-- ===== src/Multihop/Quota.antt =====
-- crates/gateway-multihop/src/quota.rs: the quota of each entry gateway at an exit. A peer is its
-- `service_id`; times are in nanoseconds. The product in `refill` is computed there with 128 bits and
-- here without a bound; the clock, which `refill` reads twice there, is read once here.
pub mod Permits
pub mod Bandwidth
pub mod Runs
mod Tests
use vpn_ne_vpn.Prelude.{
  ℕ, ◌+◌, ◌-◌, ◌*◌, ◌/◌, min, Bool, true, false, not, ◌&&◌, ◌||◌, if◌then◌else◌, ltb, leb, ◌==◌,
  u64_max, saturating_add, Result, ok, err, ok_or, Option, some, none, List, [], ◌∷◌, length,
  unwrap_or, String, Method, resume, ◌>>=◌, ◌>>◌, return, get, put, lift, fail_if,
}
use vpn_ne_vpn.Prelude.Maps.{Map, lookup, insert, remove, contains_key, string_eq}
use vpn_ne_vpn.Multihop.Error.{
  ErrorCode, invalid_configuration, draining, resource_exhausted, authentication_rejected,
  backpressure,
}

pub record EntryQuotaLimits : Type 0 where
  pub maximum_entries : ℕ
  pub maximum_connections_per_entry : ℕ
  pub maximum_sessions_per_entry : ℕ
  pub bytes_per_second : ℕ
  pub burst_bytes : ℕ

pub record EntryState : Type 0 where
  pub connections : ℕ
  pub sessions : ℕ
  pub available_bytes : ℕ
  pub last_refill : ℕ

pub record EntryQuotaManager : Type 0 where
  pub limits : EntryQuotaLimits
  pub entries : Map String EntryState
  pub is_draining : Bool

-- What a client of the manager holds, and releases when it drops it.
pub data Permit : Type 0 where
  connection_permit session_permit : String → Permit

unfoldable pub new : EntryQuotaLimits → Result ErrorCode EntryQuotaManager
new limits =
    if limits.maximum_entries == 0
      || limits.maximum_connections_per_entry == 0
      || limits.maximum_sessions_per_entry == 0
      || limits.bytes_per_second == 0
      || limits.burst_bytes == 0
    then err invalid_configuration
    else ok (record { limits = limits; entries = []; is_draining = false })

abbrev pub set_draining : Bool → EntryQuotaManager → EntryQuotaManager
set_draining b m = record m { is_draining = b }

abbrev pub set_entry : String → EntryState → EntryQuotaManager → EntryQuotaManager
set_entry id s m = record m { entries = insert id s m.entries }

-- The state that `or_insert` puts for a new entry.
abbrev pub new_entry : EntryQuotaLimits → ℕ → EntryState
new_entry limits now = record {
  connections = 0;
  sessions = 0;
  available_bytes = limits.burst_bytes;
  last_refill = now;
}

-- The entry is inserted before its connections are compared with their limit, as in the code.
unfoldable pub acquire_connection : String → ℕ → Method EntryQuotaManager ErrorCode Permit
acquire_connection id now = do
  m ← get
  fail_if m.is_draining draining
  fail_if (not (contains_key id m.entries) && leb m.limits.maximum_entries (length m.entries))
      resource_exhausted
  let state = unwrap_or (lookup id m.entries) (new_entry m.limits now)
  put (set_entry id state m)
  fail_if (leb m.limits.maximum_connections_per_entry state.connections) resource_exhausted
  put (set_entry id (record state { connections = state.connections + 1 }) m)
  return (connection_permit id)

unfoldable pub acquire_session : String → Method EntryQuotaManager ErrorCode Permit
acquire_session id = do
  m ← get
  fail_if m.is_draining draining
  state ← lift (ok_or (lookup id m.entries) authentication_rejected)
  fail_if (leb m.limits.maximum_sessions_per_entry state.sessions) resource_exhausted
  put (set_entry id (record state { sessions = state.sessions + 1 }) m)
  return (session_permit id)

unfoldable pub refill : EntryQuotaLimits → ℕ → EntryState → EntryState
refill limits now s =
    let elapsed = now - s.last_refill in
    if ltb elapsed 10000000 then s else record s {
      available_bytes =
          min
            (saturating_add s.available_bytes
              (min (limits.bytes_per_second * elapsed / 1000000000) u64_max))
            limits.burst_bytes;
      last_refill = now;
    }

-- The bucket is refilled even where the charge is then refused.
unfoldable pub charge_bytes : String → ℕ → ℕ → Method EntryQuotaManager ErrorCode (Unit {0})
unfolding refill
charge_bytes id requested now = do
  m ← get
  state ← lift (ok_or (lookup id m.entries) authentication_rejected)
  let filled = refill m.limits now state
  put (set_entry id filled m)
  fail_if (ltb filled.available_bytes requested) backpressure
  put (set_entry id (record filled { available_bytes = filled.available_bytes - requested }) m)

-- The entry after a permit of it is dropped.
abbrev pub released : Permit → EntryState → EntryState
released (connection_permit id) s = record s { connections = s.connections - 1 }
released (session_permit id) s = record s { sessions = s.sessions - 1 }

abbrev pub service_id : Permit → String
service_id (connection_permit id) = id
service_id (session_permit id) = id

abbrev pub write_back : String → EntryState → EntryQuotaManager → EntryQuotaManager
write_back id s m =
    if s.connections == 0 && s.sessions == 0
    then record m { entries = remove id m.entries }
    else set_entry id s m

abbrev pub release_entry : Permit → EntryQuotaManager → Option EntryState → EntryQuotaManager
release_entry p m none = m
release_entry p m (some s) = write_back (service_id p) (released p s) m

unfoldable pub release : Permit → EntryQuotaManager → EntryQuotaManager
release p m = release_entry p m (lookup (service_id p) m.entries)
