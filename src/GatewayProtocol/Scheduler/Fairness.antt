-- ===== src/GatewayProtocol/Scheduler/Fairness.antt =====
-- crates/gateway-protocol/src/scheduler.rs: control frames cannot starve the streams, and the streams
-- take turns.
use mathlib.Core.List.{append_assoc, append-nil}
use vpn_ne_vpn.Prelude.{
  ℕ, zero, suc, ◌+◌, ◌-◌, ◌≤◌, ◌≡◌, refl, ap, sym, ◌∙◌, subst, true, false, null, Option, some,
  none, List, [], ◌∷◌, ◌++◌, map, length, drop, cons_of_null, arith, Bool-cases, inl, inr, ltb,
  ◌||◌, not,
}
use vpn_ne_vpn.Prelude.Maps.{lookup, nat_eq, lookup-insert, lookup-remove}
use vpn_ne_vpn.Prelude.Members.{member, Once, member-append}
use vpn_ne_vpn.GatewayProtocol.Scheduler.{
  OutboundItem, FairScheduler, pop_next, pop_active, pop_control, pop_stream, settle,
  max_control_burst,
}
use vpn_ne_vpn.GatewayProtocol.Scheduler.Invariant.{IsValid}
use vpn_ne_vpn.GatewayProtocol.Scheduler.Dequeue.{front, pop_next-IsValid}

module _ {Body : Type 0} where
  -- The scheduler after `n` pops.
  unfoldable pub after : ℕ → FairScheduler Body → FairScheduler Body
  after zero s = s
  after (suc n) s = after n (pop_next s).0

  -- The frames of the next `n` pops.
  unfoldable pub served : ℕ → FairScheduler Body → List (Option (OutboundItem Body))
  served zero s = []
  served (suc n) s = (pop_next s).1 ∷ served n (pop_next s).0

  -- The first stream in line is served when no control frame is due.
  serve_first :
      (id : ℕ) (rest : List ℕ) (x : OutboundItem Body) (q : List (OutboundItem Body))
      (s : FairScheduler Body)
      → s.active ≡ id ∷ rest
      → lookup id s.streams ≡ some (x ∷ q)
      → (null s.control || not (ltb s.control_burst 8)) ≡ true
      → pop_next s ≡ (settle (record s { active = rest }) id x q, some x)
  unfolding pop_next pop_active pop_stream
  serve_first id rest x q s a f h = ground arith

  -- A control frame goes first while the burst lasts.
  serve_control :
      (c : OutboundItem Body) (cs : List (OutboundItem Body)) (s : FairScheduler Body)
      → s.control ≡ c ∷ cs
      → ltb s.control_burst 8 ≡ true
      → (pop_next s).0 ≡ record s {
        control_burst = s.control_burst + 1;
        control = cs;
        queued_bytes = s.queued_bytes - c.accounted_bytes;
      }
  unfolding pop_next pop_control
  serve_control c cs s e h = ground arith

  -- Within `k` pops of control frames, taken from the front of their queue, comes the frame `x`.
  abbrev pub Soon : ℕ → OutboundItem Body → FairScheduler Body → Type 0
  Soon k x s =
      (j : ℕ) × (j ≤ k)
      × ((pop_next (after j s)).1 ≡ some x)
      × ((after j s).control ≡ drop j s.control)

  later_Soon :
      (k : ℕ) (x c : OutboundItem Body) (cs : List (OutboundItem Body)) (s s' : FairScheduler Body)
      → (pop_next s).0 ≡ s'
      → s.control ≡ c ∷ cs
      → s'.control ≡ cs
      → Soon k x s'
      → Soon (suc k) x s
  unfolding after
  later_Soon k x c cs s s' step e e' (j, le, now, left) =
      let there : after j (pop_next s).0 ≡ after j s' = ap (after j) step in
      (
        suc j,
        omega arith,
        ap (λ u. (pop_next u).1) there ∙ now,
        ap (λ u. u.control) there ∙ left ∙ ap (drop j) e' ∙ sym (ap (drop (suc j)) e),
      )

  -- While a stream waits, the next pops take control frames from the front of their queue, and after
  -- so many that the burst is used up, or sooner, comes the first frame of the stream at the front of
  -- `active`.
  pub control_cannot_starve :
      (k id : ℕ) (rest : List ℕ) (x : OutboundItem Body) (q : List (OutboundItem Body))
      (s : FairScheduler Body)
      → s.active ≡ id ∷ rest
      → lookup id s.streams ≡ some (x ∷ q)
      → max_control_burst ≤ s.control_burst + k
      → Soon k x s
  unfolding after
  control_cannot_starve zero id rest x q s a f h =
      (0, omega arith, ground (arith, serve_first id rest x q s a f (ground arith)), refl)
  control_cannot_starve (suc k) id rest x q s a f h =
      elim (Bool-cases (null s.control || not (ltb s.control_burst 8))) [
        | inl due ↦ (0, omega arith, ground (arith, serve_first id rest x q s a f due), refl)
        | inr burst ↦
            let (c, cs, e) = cons_of_null s.control (ground arith) in
            let s' : FairScheduler Body = record s {
              control_burst = s.control_burst + 1;
              control = cs;
              queued_bytes = s.queued_bytes - c.accounted_bytes;
            } in
            later_Soon k x c cs s s' (serve_control c cs s e (ground arith)) e refl
              (control_cannot_starve k id rest x q s' a f (omega arith))
      ]

  -- The first frame of a stream.
  abbrev pub first : Option (List (OutboundItem Body)) → Option (OutboundItem Body)
  first none = none
  first (some []) = none
  first (some (x ∷ q)) = some x

  abbrev pub heads : FairScheduler Body → List ℕ → List (Option (OutboundItem Body))
  heads s = map (λ id. first (lookup id s.streams))

  settle-heads :
      (id : ℕ) (x : OutboundItem Body) (q : List (OutboundItem Body)) (s : FairScheduler Body)
      (xs : List ℕ)
      → member id xs ≡ false
      → heads (settle s id x q) xs ≡ heads s xs
  unfolding settle
  settle-heads id x q s [] h = refl
  settle-heads id x q s (y ∷ ys) h = ground (
    arith,
    settle-heads id x q s ys,
    lookup-insert id y q s.streams,
    lookup-remove id y s.streams,
  )

  settle-active :
      (id : ℕ) (x : OutboundItem Body) (q : List (OutboundItem Body)) (s : FairScheduler Body)
      → (ys : List ℕ) × ((settle s id x q).active ≡ s.active ++ ys)
  unfolding settle
  settle-active id x q s = elim (Bool-cases (null q)) [
    | inl h ↦ ([], ground (arith, append-nil s.active))
    | inr h ↦ (id ∷ [], ground arith)
  ]

  settle-control :
      (id : ℕ) (x : OutboundItem Body) (q : List (OutboundItem Body)) (s : FairScheduler Body)
      (xs ys : List ℕ)
      → s.control ≡ []
      → (settle (record s { active = xs ++ ys }) id x q).control ≡ []
  unfolding settle
  settle-control id x q s xs ys c = ground arith

  -- The front of `active` does not come again in it.
  other :
      (id : ℕ) (xs ys : List ℕ) (s : FairScheduler Body)
      → IsValid s
      → s.active ≡ id ∷ (xs ++ ys)
      → member id xs ≡ false
  other id xs ys s v a =
      let o : Once (id ∷ (xs ++ ys)) = subst Once a v.once in
      ground (arith, member-append id xs ys, o.0)

  turn :
      (id : ℕ) (x : OutboundItem Body) (q : List (OutboundItem Body)) (s s' : FairScheduler Body)
      (xs : List ℕ)
      → pop_next s ≡ (s', some x)
      → lookup id s.streams ≡ some (x ∷ q)
      → served (length xs) s' ≡ heads s xs
      → served (suc (length xs)) s ≡ heads s (id ∷ xs)
  unfolding served
  turn id x q s s' xs step f h = rw (step, f, h)

  -- With no control frame queued, the pops of a valid scheduler serve the streams at the front of
  -- `active` in their order, one frame each, before any of them comes again.
  pub streams_take_turns :
      (xs ys : List ℕ) (s : FairScheduler Body)
      → IsValid s
      → s.control ≡ []
      → s.active ≡ xs ++ ys
      → served (length xs) s ≡ heads s xs
  unfolding served
  streams_take_turns [] ys s v c a = refl
  streams_take_turns (id ∷ xs) ys s v c a =
      let (x, q, f) = front id (xs ++ ys) s v a in
      let s' : FairScheduler Body = settle (record s { active = xs ++ ys }) id x q in
      let (zs, e) = settle-active id x q (record s { active = xs ++ ys }) in
      let step : pop_next s ≡ (s', some x) = serve_first id (xs ++ ys) x q s a f (ground arith) in
      let v' : IsValid s' = subst (λ r. IsValid r.0) step (pop_next-IsValid s v) in
      let turns : served (length xs) s' ≡ heads s' xs =
        streams_take_turns xs (ys ++ zs) s' v' (settle-control id x q s xs ys c)
          (e ∙ append_assoc xs ys zs) in
      turn id x q s s' xs step f
        (turns ∙ settle-heads id x q (record s { active = xs ++ ys }) xs (other id xs ys s v a))
