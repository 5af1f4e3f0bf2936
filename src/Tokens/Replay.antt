-- ===== src/Tokens/Replay.antt =====
-- crates/auth-tokens/src/replay.rs: the in-memory store of the sessions that tokens hold. A token's id
-- and a session's id are the numbers of their 32 bytes; times are seconds since the epoch.
pub mod Refusal
mod Tests
use vpn_ne_vpn.Prelude.{
  ℕ, min, Bool, true, false, if◌then◌else◌, ltb, leb, Result, ok, err, Option, some, none, List, [],
  ◌∷◌, ◌++◌, length, null, unwrap_or, Method, resume, ◌>>=◌, ◌>>◌, return, get, put, fail_if,
}
use vpn_ne_vpn.Prelude.Maps.{Map, lookup, insert, remove, nat_eq}
use vpn_ne_vpn.Prelude.Members.{member, retain_ne}

pub data TokenStoreError : Type 0 where
  already_reserved limit_reached unavailable : TokenStoreError

pub record TokenReservation : Type 0 where
  pub token_id : ℕ
  pub session_id : ℕ
  pub now : ℕ
  pub expires_at : ℕ
  pub max_active_sessions : ℕ

pub record SessionLease : Type 0 where
  pub token_id : ℕ
  pub session_id : ℕ

pub record TokenSessions : Type 0 where
  pub expires_at : ℕ
  pub sessions : List ℕ

abbrev pub Store : Type 0
Store = Map ℕ TokenSessions

-- `retain(|_, state| state.expires_at > now)`
unfoldable pub retain_live : ℕ → Store → Store
retain_live now [] = []
retain_live now ((id, s) ∷ m) =
    let rest = retain_live now m in if ltb now s.expires_at then (id, s) ∷ rest else rest

-- The entry is written before the session is looked for, as in the code.
unfoldable pub reserve : TokenReservation → Method Store TokenStoreError SessionLease
unfolding retain_live
reserve r = do
  m ← get
  let live = retain_live r.now m
  let fresh : TokenSessions = record { expires_at = r.expires_at; sessions = [] }
  let found = unwrap_or (lookup r.token_id live) fresh
  let state : TokenSessions = record found { expires_at = min found.expires_at r.expires_at }
  put (insert r.token_id state live)
  fail_if (member r.session_id state.sessions) already_reserved
  fail_if (leb r.max_active_sessions (length state.sessions)) limit_reached
  put (insert r.token_id (record state { sessions = state.sessions ++ (r.session_id ∷ []) }) live)
  return (record { token_id = r.token_id; session_id = r.session_id })

abbrev pub write_back : ℕ → TokenSessions → Store → Store
write_back id s m = if null s.sessions then remove id m else insert id s m

abbrev pub release_from : SessionLease → Store → Option TokenSessions → Store
release_from lease m none = m
release_from lease m (some s) =
    write_back lease.token_id (record s { sessions = retain_ne lease.session_id s.sessions }) m

unfoldable pub release : SessionLease → Store → Store
release lease m = release_from lease m (lookup lease.token_id m)
