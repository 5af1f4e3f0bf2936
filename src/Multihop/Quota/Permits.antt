-- ===== src/Multihop/Quota/Permits.antt =====
-- crates/gateway-multihop/src/quota.rs: the books of the quota and the permits that are held.
use vpn_ne_vpn.Prelude.{
  ℕ, zero, suc, ◌+◌, ◌-◌, ◌≤◌, ◌<◌, ◌≡◌, ◌⊎◌, refl, Bool, true, if◌then◌else◌, Result, ok, err,
  Option, some, none, List, [], ◌∷◌, length, String, arith, Option-cases, inl, inr,
}
use vpn_ne_vpn.Prelude.Maps.{
  lookup, contains_key, string_eq, weight, Entries, insert-Entries, lookup-Entries, lookup-insert,
  length-insert,
}
use vpn_ne_vpn.Multihop.Error.{ErrorCode}
use vpn_ne_vpn.Multihop.Quota.{
  EntryQuotaLimits, EntryState, EntryQuotaManager, Permit, connection_permit, session_permit,
  set_draining, set_entry, new_entry, acquire_connection, acquire_session, charge_bytes, refill,
  release,
}

-- The number of permits of each kind that are held for an entry.
abbrev pub held_connections : String → List Permit → ℕ
held_connections id [] = 0
held_connections id (connection_permit j ∷ ps) =
    if string_eq.beq j id then suc (held_connections id ps) else held_connections id ps
held_connections id (session_permit j ∷ ps) = held_connections id ps

abbrev pub held_sessions : String → List Permit → ℕ
held_sessions id [] = 0
held_sessions id (connection_permit j ∷ ps) = held_sessions id ps
held_sessions id (session_permit j ∷ ps) =
    if string_eq.beq j id then suc (held_sessions id ps) else held_sessions id ps

-- An exit: its manager and the permits that its connections and sessions hold.
pub record Exit : Type 0 where
  pub manager : EntryQuotaManager
  pub permits : List Permit

-- The n-th permit, and the permits without it.
abbrev pub nth : ℕ → List Permit → Option Permit
nth n [] = none
nth zero (p ∷ ps) = some p
nth (suc n) (p ∷ ps) = nth n ps

abbrev pub without : ℕ → List Permit → List Permit
without n [] = []
without zero (p ∷ ps) = ps
without (suc n) (p ∷ ps) = p ∷ without n ps

pub data Op : Type 0 where
  connects : String → ℕ → Op
  opens : String → Op
  charges : String → ℕ → ℕ → Op
  drops : ℕ → Op
  drains : Bool → Op

abbrev pub keep : EntryQuotaManager × Result ErrorCode Permit → List Permit → Exit
keep (m, ok p) ps = record { manager = m; permits = p ∷ ps }
keep (m, err e) ps = record { manager = m; permits = ps }

abbrev pub drop_permit : Option Permit → ℕ → Exit → Exit
drop_permit none n x = x
drop_permit (some p) n x = record { manager = release p x.manager; permits = without n x.permits }

-- A drop of a permit that is not held does nothing: ownership rules it out.
unfoldable pub perform : Op → Exit → Exit
perform (connects id now) x = keep (acquire_connection id now x.manager) x.permits
perform (opens id) x = keep (acquire_session id x.manager) x.permits
perform (charges id n now) x = record x { manager = (charge_bytes id n now x.manager).0 }
perform (drops n) x = drop_permit (nth n x.permits) n x
perform (drains b) x = record x { manager = set_draining b x.manager }

unfoldable pub run : Exit → List Op → Exit
unfolding perform
run x [] = x
run x (o ∷ os) = run (perform o x) os

abbrev pub connections_of : EntryState → ℕ
connections_of s = s.connections

abbrev pub sessions_of : EntryState → ℕ
sessions_of s = s.sessions

-- An entry has something open, is within its limits, and its bucket within the burst.
pub record IsEntry (limits : EntryQuotaLimits) (id : String) (s : EntryState) : Type 0 where
  pub in_use : 0 < s.connections + s.sessions
  pub connections_bounded : s.connections ≤ limits.maximum_connections_per_entry
  pub sessions_bounded : s.sessions ≤ limits.maximum_sessions_per_entry
  pub bytes_bounded : s.available_bytes ≤ limits.burst_bytes

pub record IsValid (x : Exit) : Type 0 where
  pub connection_allowed : 0 < x.manager.limits.maximum_connections_per_entry
  pub count_bounded : length x.manager.entries ≤ x.manager.limits.maximum_entries
  pub entries : Entries (IsEntry x.manager.limits) x.manager.entries
  pub connections_held :
      (id : String)
      → weight connections_of (lookup id x.manager.entries) ≡ held_connections id x.permits
  pub sessions_held :
      (id : String) → weight sessions_of (lookup id x.manager.entries) ≡ held_sessions id x.permits

-- Writing an entry keeps the books if the permits held after it are those of the entry.
pub set_entry-IsValid :
    (id : String) (s : EntryState) (m : EntryQuotaManager) (ps qs : List Permit)
    → IsValid (record { manager = m; permits = ps })
    → (contains_key id m.entries ≡ true) ⊎ (length m.entries < m.limits.maximum_entries)
    → IsEntry m.limits id s
    → ((j : String)
        → held_connections j qs
          ≡ (if string_eq.beq id j then s.connections else held_connections j ps))
    → ((j : String)
        → held_sessions j qs ≡ (if string_eq.beq id j then s.sessions else held_sessions j ps))
    → IsValid (record { manager = set_entry id s m; permits = qs })
set_entry-IsValid id s m ps qs v room good c h = record {
  connection_allowed = v.connection_allowed;
  count_bounded = ground (arith, v.count_bounded, length-insert id s m.entries);
  entries = insert-Entries (IsEntry m.limits) id s m.entries v.entries good;
  connections_held = λ j. ground (arith, c j, v.connections_held j, lookup-insert id j s m.entries);
  sessions_held = λ j. ground (arith, h j, v.sessions_held j, lookup-insert id j s m.entries);
}

-- One more connection of an entry, new or known.
add_connection :
    (id : String) (s : EntryState) (m : EntryQuotaManager) (ps : List Permit)
    → IsValid (record { manager = m; permits = ps })
    → (contains_key id m.entries ≡ true) ⊎ (length m.entries < m.limits.maximum_entries)
    → s.connections < m.limits.maximum_connections_per_entry
    → s.sessions ≤ m.limits.maximum_sessions_per_entry
    → s.available_bytes ≤ m.limits.burst_bytes
    → weight connections_of (lookup id m.entries) ≡ s.connections
    → weight sessions_of (lookup id m.entries) ≡ s.sessions
    → IsValid (record {
      manager = set_entry id (record s { connections = s.connections + 1 }) m;
      permits = connection_permit id ∷ ps;
    })
add_connection id s m ps v room a b c d e =
    set_entry-IsValid id (record s { connections = s.connections + 1 }) m ps
      (connection_permit id ∷ ps) v room
      (record {
        in_use = omega arith;
        connections_bounded = omega arith;
        sessions_bounded = b;
        bytes_bounded = c;
      })
      (λ j. ground (arith, v.connections_held id, string_eq.beq_iff id j))
      (λ j. ground (arith, v.sessions_held id, string_eq.beq_iff id j))

-- Writing an entry anew with another bucket keeps the books.
refresh :
    (id : String) (s t : EntryState) (m : EntryQuotaManager) (ps : List Permit)
    → IsValid (record { manager = m; permits = ps })
    → lookup id m.entries ≡ some s
    → t.connections ≡ s.connections
    → t.sessions ≡ s.sessions
    → t.available_bytes ≤ m.limits.burst_bytes
    → IsValid (record { manager = set_entry id t m; permits = ps })
refresh id s t m ps v l a b c =
    let good = lookup-Entries (IsEntry m.limits) id s m.entries v.entries l in
    set_entry-IsValid id t m ps ps v (inl (ground arith))
      (record {
        in_use = ground (arith, good.in_use);
        connections_bounded = ground (arith, good.connections_bounded);
        sessions_bounded = ground (arith, good.sessions_bounded);
        bytes_bounded = c;
      })
      (λ j. ground (arith, v.connections_held id, string_eq.beq_iff id j))
      (λ j. ground (arith, v.sessions_held id, string_eq.beq_iff id j))

pub acquire_connection-IsValid :
    (id : String) (now : ℕ) (m : EntryQuotaManager) (ps : List Permit)
    → IsValid (record { manager = m; permits = ps })
    → IsValid (keep (acquire_connection id now m) ps)
unfolding acquire_connection
acquire_connection-IsValid id now m ps v = elim (Option-cases (lookup id m.entries)) [
  | inl e ↦ ground (arith, v.connection_allowed, add_connection id (new_entry m.limits now) m ps v)
  | inr (s, e) ↦
      let good = lookup-Entries (IsEntry m.limits) id s m.entries v.entries e in
      ground (
        arith,
        good.sessions_bounded,
        good.bytes_bounded,
        refresh id s s m ps v e refl refl,
        add_connection id s m ps v,
      )
]

pub acquire_session-IsValid :
    (id : String) (m : EntryQuotaManager) (ps : List Permit)
    → IsValid (record { manager = m; permits = ps })
    → IsValid (keep (acquire_session id m) ps)
unfolding acquire_session
acquire_session-IsValid id m ps v = elim (Option-cases (lookup id m.entries)) [
  | inl e ↦ ground arith
  | inr (s, e) ↦ ground (arith, add_session s e)
]
  where
    add_session :
        (s : EntryState)
        → lookup id m.entries ≡ some s
        → s.sessions < m.limits.maximum_sessions_per_entry
        → IsValid (record {
          manager = set_entry id (record s { sessions = s.sessions + 1 }) m;
          permits = session_permit id ∷ ps;
        })
    add_session s e b =
        let good = lookup-Entries (IsEntry m.limits) id s m.entries v.entries e in
        set_entry-IsValid id (record s { sessions = s.sessions + 1 }) m ps (session_permit id ∷ ps)
          v (inl (ground arith))
          (record {
            in_use = omega arith;
            connections_bounded = good.connections_bounded;
            sessions_bounded = omega arith;
            bytes_bounded = good.bytes_bounded;
          })
          (λ j. ground (arith, v.connections_held id, string_eq.beq_iff id j))
          (λ j. ground (arith, v.sessions_held id, string_eq.beq_iff id j))

refill-le :
    (limits : EntryQuotaLimits) (now : ℕ) (s : EntryState)
    → s.available_bytes ≤ limits.burst_bytes
    → ((refill limits now s).available_bytes ≤ limits.burst_bytes)
      × ((refill limits now s).connections ≡ s.connections)
      × ((refill limits now s).sessions ≡ s.sessions)
unfolding refill
refill-le limits now s h = ground arith

pub charge_bytes-IsValid :
    (id : String) (n now : ℕ) (m : EntryQuotaManager) (ps : List Permit)
    → IsValid (record { manager = m; permits = ps })
    → IsValid (record { manager = (charge_bytes id n now m).0; permits = ps })
unfolding charge_bytes
charge_bytes-IsValid id n now m ps v = elim (Option-cases (lookup id m.entries)) [
  | inl e ↦ ground arith
  | inr (s, e) ↦
      let good = lookup-Entries (IsEntry m.limits) id s m.entries v.entries e in
      let f = refill m.limits now s in
      ground (
        arith,
        refill-le m.limits now s good.bytes_bounded,
        refresh id s f m ps v e,
        refresh id s (record f { available_bytes = f.available_bytes - n }) m ps v e,
      )
]

abbrev pub one_connection : Permit → String → ℕ
one_connection (connection_permit i) id = if string_eq.beq i id then 1 else 0
one_connection (session_permit i) id = 0

abbrev pub one_session : Permit → String → ℕ
one_session (connection_permit i) id = 0
one_session (session_permit i) id = if string_eq.beq i id then 1 else 0

pub held-without :
    (n : ℕ) (ps : List Permit) (p : Permit) (id : String)
    → nth n ps ≡ some p
    → (held_connections id ps ≡ held_connections id (without n ps) + one_connection p id)
      × (held_sessions id ps ≡ held_sessions id (without n ps) + one_session p id)
held-without n [] p id h = absurd (ground arith)
held-without zero (connection_permit q ∷ ps) p id h = ground arith
held-without zero (session_permit q ∷ ps) p id h = ground arith
held-without (suc n) (connection_permit q ∷ ps) p id h = ground (arith, held-without n ps p id h)
held-without (suc n) (session_permit q ∷ ps) p id h = ground (arith, held-without n ps p id h)
