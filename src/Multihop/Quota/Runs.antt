-- ===== src/Multihop/Quota/Runs.antt =====
-- crates/gateway-multihop/src/quota.rs: histories of connections, sessions, charges and drops.
use vpn_ne_vpn.Prelude.{
  ℕ, ◌≤◌, ◌≡◌, ◌==◌, refl, ◌&&◌, if◌then◌else◌, ok, some, List, [], ◌∷◌, String, arith,
  Option-cases, Bool-cases, inl, inr,
}
use vpn_ne_vpn.Prelude.Maps.{
  lookup, remove, string_eq, remove-Entries, lookup-Entries, lookup-remove, length-remove-le,
}
use vpn_ne_vpn.Multihop.Quota.{
  EntryQuotaLimits, EntryState, EntryQuotaManager, Permit, connection_permit, session_permit, new,
  release, released, write_back,
}
use vpn_ne_vpn.Multihop.Quota.Permits.{
  Exit, Op, connects, opens, charges, drops, drains, perform, run, IsValid, IsEntry, nth, without,
  held_connections, held_sessions, held-without, set_entry-IsValid, acquire_connection-IsValid,
  acquire_session-IsValid, charge_bytes-IsValid,
}

-- Removing an entry of which nothing is held keeps the books.
remove_entry-IsValid :
    (id : String) (m : EntryQuotaManager) (ps qs : List Permit)
    → IsValid (record { manager = m; permits = ps })
    → ((j : String)
        → held_connections j qs ≡ (if string_eq.beq id j then 0 else held_connections j ps))
    → ((j : String) → held_sessions j qs ≡ (if string_eq.beq id j then 0 else held_sessions j ps))
    → IsValid (record { manager = record m { entries = remove id m.entries }; permits = qs })
remove_entry-IsValid id m ps qs v c h = record {
  connection_allowed = v.connection_allowed;
  count_bounded = ground (arith, v.count_bounded, length-remove-le id m.entries);
  entries = remove-Entries (IsEntry m.limits) id m.entries v.entries;
  connections_held = λ j. ground (arith, c j, v.connections_held j, lookup-remove id j m.entries);
  sessions_held = λ j. ground (arith, h j, v.sessions_held j, lookup-remove id j m.entries);
}

write_back-IsValid :
    (id : String) (s t : EntryState) (m : EntryQuotaManager) (ps qs : List Permit)
    → IsValid (record { manager = m; permits = ps })
    → lookup id m.entries ≡ some s
    → t.connections ≤ s.connections
    → t.sessions ≤ s.sessions
    → t.available_bytes ≡ s.available_bytes
    → ((j : String)
        → held_connections j qs
          ≡ (if string_eq.beq id j then t.connections else held_connections j ps))
    → ((j : String)
        → held_sessions j qs ≡ (if string_eq.beq id j then t.sessions else held_sessions j ps))
    → IsValid (record { manager = write_back id t m; permits = qs })
write_back-IsValid id s t m ps qs v l a b c f g =
    let good = lookup-Entries (IsEntry m.limits) id s m.entries v.entries l in
    elim (Bool-cases (t.connections == 0 && t.sessions == 0)) [
      | inl h ↦ ground (
        arith,
        remove_entry-IsValid id m ps qs v (λ j. ground (arith, f j)) (λ j. ground (arith, g j)),
      )
      | inr h ↦ ground (
        arith,
        set_entry-IsValid id t m ps qs v (inl (ground arith))
            (record {
              in_use = ground arith;
              connections_bounded = ground (arith, good.connections_bounded);
              sessions_bounded = ground (arith, good.sessions_bounded);
              bytes_bounded = ground (arith, good.bytes_bounded);
            })
            f g,
      )
    ]

release-IsValid :
    (n : ℕ) (p : Permit) (m : EntryQuotaManager) (ps : List Permit)
    → IsValid (record { manager = m; permits = ps })
    → nth n ps ≡ some p
    → IsValid (record { manager = release p m; permits = without n ps })
unfolding release
release-IsValid n (connection_permit id) m ps v h = elim (Option-cases (lookup id m.entries)) [
  | inl e ↦ absurd (
      ground (
        arith,
        v.connections_held id,
        held-without n ps (connection_permit id) id h,
        string_eq.beq_iff id id,
      ))
  | inr (s, e) ↦ ground (
    arith,
    write_back-IsValid id s (released (connection_permit id) s) m ps (without n ps) v e
        (omega arith) (omega arith) refl
        (λ j. ground (
          arith,
          held-without n ps (connection_permit id) j h,
          v.connections_held j,
          string_eq.beq_iff id j,
        ))
        (λ j. ground (
          arith,
          held-without n ps (connection_permit id) j h,
          v.sessions_held j,
          string_eq.beq_iff id j,
        )),
  )
]
release-IsValid n (session_permit id) m ps v h = elim (Option-cases (lookup id m.entries)) [
  | inl e ↦ absurd (
      ground (
        arith,
        v.sessions_held id,
        held-without n ps (session_permit id) id h,
        string_eq.beq_iff id id,
      ))
  | inr (s, e) ↦ ground (
    arith,
    write_back-IsValid id s (released (session_permit id) s) m ps (without n ps) v e (omega arith)
        (omega arith) refl
        (λ j. ground (
          arith,
          held-without n ps (session_permit id) j h,
          v.connections_held j,
          string_eq.beq_iff id j,
        ))
        (λ j. ground (
          arith,
          held-without n ps (session_permit id) j h,
          v.sessions_held j,
          string_eq.beq_iff id j,
        )),
  )
]

perform-IsValid : (o : Op) (x : Exit) → IsValid x → IsValid (perform o x)
unfolding perform
perform-IsValid (connects id now) x v = acquire_connection-IsValid id now x.manager x.permits v
perform-IsValid (opens id) x v = acquire_session-IsValid id x.manager x.permits v
perform-IsValid (charges id n now) x v = charge_bytes-IsValid id n now x.manager x.permits v
perform-IsValid (drops n) x v = elim (Option-cases (nth n x.permits)) [
  | inl e ↦ ground arith
  | inr (p, e) ↦ ground (arith, release-IsValid n p x.manager x.permits v e)
]
perform-IsValid (drains b) x v = record {
  connection_allowed = v.connection_allowed;
  count_bounded = v.count_bounded;
  entries = v.entries;
  connections_held = v.connections_held;
  sessions_held = v.sessions_held;
}

run-IsValid : (os : List Op) (x : Exit) → IsValid x → IsValid (run x os)
unfolding run
run-IsValid [] x v = v
run-IsValid (o ∷ os) x v = run-IsValid os (perform o x) (perform-IsValid o x v)

new-IsValid :
    (limits : EntryQuotaLimits) (m : EntryQuotaManager)
    → new limits ≡ ok m
    → IsValid (record { manager = m; permits = [] })
unfolding new
new-IsValid limits m h = ground arith

-- After any history of connections, sessions, charges, drops and drains on a manager that `new`
-- accepts, the quota of each entry is exact: its connections and sessions are the permits that are
-- held for it, within their limits, its bucket is within the burst, there are no more entries than
-- allowed, and an entry stands in the table only while a permit of it is held.
pub quota_is_exact :
    (limits : EntryQuotaLimits) (m : EntryQuotaManager) (os : List Op)
    → new limits ≡ ok m
    → IsValid (run (record { manager = m; permits = [] }) os)
quota_is_exact limits m os h =
    run-IsValid os (record { manager = m; permits = [] }) (new-IsValid limits m h)
