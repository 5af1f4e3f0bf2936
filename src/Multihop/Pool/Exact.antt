-- ===== src/Multihop/Pool/Exact.antt =====
-- crates/gateway-multihop/src/mux.rs: the pool counts the connections that its clients hold.
use vpn_ne_vpn.Prelude.{
  ℕ, ◌+◌, ◌-◌, ◌≤◌, ◌≡◌, refl, true, false, ◌||◌, if◌then◌else◌, ltb, leb, ◌==◌, ok, List, [], ◌∷◌,
  length, String, unwrap_or, arith, Option-cases, Bool-cases, inl, inr,
}
use vpn_ne_vpn.Prelude.Maps.{lookup, insert, string_eq, lookup-insert, lookup-remove}
use vpn_ne_vpn.Prelude.Sets.{contains}
use vpn_ne_vpn.Prelude.Texts.{is_empty, bytes}
use vpn_ne_vpn.Multihop.Pool.{
  PoolLimits, ConnectionPoolLimiter, new, try_acquire, count_down, drop_permit, Clients, Op,
  acquires, drops, without, hold, perform, run,
}

abbrev pub held : String → List String → ℕ
held id [] = 0
held id (p ∷ ps) = let n = held id ps in if string_eq.beq p id then n + 1 else n

-- Every permit is counted, in all and for its exit, within the limits.
pub record IsExact (c : Clients) : Type 0 where
  pub in_all : c.pool.total + length c.permits ≡ c.pool.limits.maximum_total_connections
  pub for_exit : (id : String) → unwrap_or (lookup id c.pool.per_exit) 0 ≡ held id c.permits
  pub bounded : (id : String) → held id c.permits ≤ c.pool.limits.maximum_connections_per_exit

held-without :
    (id j : String) (ps : List String)
    → contains ps id ≡ true
    → held j (without id ps) ≡ (if string_eq.beq id j then held j ps - 1 else held j ps)
held-without id j [] h = absurd (ground arith)
held-without id j (p ∷ ps) h = ground (
  arith,
  string_eq.beq_iff p id,
  string_eq.beq_iff p j,
  string_eq.beq_iff id j,
  held-without id j ps,
)

length-without :
    (id : String) (ps : List String)
    → contains ps id ≡ true
    → length (without id ps) + 1 ≡ length ps
length-without id [] h = absurd (ground arith)
length-without id (p ∷ ps) h = ground (arith, length-without id ps)

held-contains : (id : String) (ps : List String) → contains ps id ≡ true → 1 ≤ held id ps
held-contains id [] h = absurd (ground arith)
held-contains id (p ∷ ps) h = ground (arith, held-contains id ps)

new-IsExact :
    (limits : PoolLimits) (pool : ConnectionPoolLimiter)
    → new limits ≡ ok pool
    → IsExact (record { pool = pool; permits = [] })
unfolding new
new-IsExact limits pool h = record {
  in_all = ground arith;
  for_exit = λ id. ground arith;
  bounded = λ id. omega arith;
}

acquired-IsExact :
    (id : String) (pool : ConnectionPoolLimiter) (ps : List String) (current : ℕ)
    → IsExact (record { pool = pool; permits = ps })
    → unwrap_or (lookup id pool.per_exit) 0 ≡ current
    → (pool.total == 0) ≡ false
    → leb pool.limits.maximum_connections_per_exit current ≡ false
    → IsExact (record {
      pool = record pool {
        total = pool.total - 1;
        per_exit = insert id (current + 1) pool.per_exit;
      };
      permits = id ∷ ps;
    })
acquired-IsExact id pool ps current v c t f = record {
  in_all = ground (arith, v.in_all);
  for_exit = λ j. ground (
    arith,
    v.for_exit j,
    v.for_exit id,
    lookup-insert id j (current + 1) pool.per_exit,
    string_eq.beq_iff id j,
  );
  bounded = λ j. ground (arith, v.bounded j, v.for_exit id, string_eq.beq_iff id j);
}

try_acquire-IsExact :
    (id : String) (pool : ConnectionPoolLimiter) (ps : List String)
    → IsExact (record { pool = pool; permits = ps })
    → IsExact (hold ps (try_acquire id pool))
unfolding try_acquire
try_acquire-IsExact id pool ps v = elim (Bool-cases (is_empty id || ltb 128 (bytes id))) [
  | inl bad ↦ rw bad v
  | inr fine ↦ elim (Bool-cases (pool.total == 0)) [
    | inl spent ↦ rw (fine, spent) v
    | inr left ↦
        elim (Bool-cases
          (leb pool.limits.maximum_connections_per_exit (unwrap_or (lookup id pool.per_exit) 0))) [
            | inl full ↦ rw (fine, left, full) v
            | inr room ↦ rw (fine, left, room) (acquired-IsExact id pool ps _ v refl left room)
          ]
  ]
]

drop_permit-IsExact :
    (id : String) (pool : ConnectionPoolLimiter) (ps : List String)
    → IsExact (record { pool = pool; permits = ps })
    → contains ps id ≡ true
    → IsExact (record { pool = drop_permit id pool; permits = without id ps })
unfolding drop_permit
drop_permit-IsExact id pool ps v h = record {
  in_all = ground (arith, v.in_all, length-without id ps h);
  for_exit = λ j. counted j;
  bounded = λ j. ground (arith, v.bounded j, held-without id j ps h);
}
  where
    counted :
        (j : String)
        → unwrap_or (lookup j (count_down id (lookup id pool.per_exit) pool.per_exit)) 0
          ≡ held j (without id ps)
    counted j = elim (Option-cases (lookup id pool.per_exit)) [
      | inl none_left ↦ absurd (ground (arith, v.for_exit id, held-contains id ps h))
      | inr (n, e) ↦ ground (
        arith,
        e,
        v.for_exit id,
        v.for_exit j,
        held-without id j ps h,
        held-contains id ps h,
        lookup-insert id j (n - 1) pool.per_exit,
        lookup-remove id j pool.per_exit,
        string_eq.beq_iff id j,
      )
    ]

perform-IsExact : (o : Op) (c : Clients) → IsExact c → IsExact (perform o c)
unfolding perform
perform-IsExact (acquires id) c v = try_acquire-IsExact id c.pool c.permits v
perform-IsExact (drops id) c v = elim (Bool-cases (contains c.permits id)) [
  | inl h ↦ rw h (drop_permit-IsExact id c.pool c.permits v h)
  | inr h ↦ rw h v
]

run-IsExact : (os : List Op) (c : Clients) → IsExact c → IsExact (run c os)
unfolding run
run-IsExact [] c v = v
run-IsExact (o ∷ os) c v = run-IsExact os (perform o c) (perform-IsExact o c v)

-- After any history of connections that are asked for and dropped on a pool that `new` accepts, the
-- connections that are held and those that are left are the limit of all, the count of each exit is
-- that of the connections held to it, and it is within the limit for an exit.
pub new-run-IsExact :
    (limits : PoolLimits) (pool : ConnectionPoolLimiter) (os : List Op)
    → new limits ≡ ok pool
    → IsExact (run (record { pool = pool; permits = [] }) os)
new-run-IsExact limits pool os h =
    run-IsExact os (record { pool = pool; permits = [] }) (new-IsExact limits pool h)
