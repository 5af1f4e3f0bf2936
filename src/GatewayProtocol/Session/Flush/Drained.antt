-- ===== src/GatewayProtocol/Session/Flush/Drained.antt =====
-- crates/gateway-protocol/src/session.rs: a flush ends, and it ends with nothing queued.
use vpn_ne_vpn.Prelude.{
  unwrap_or, ℕ, zero, suc, ◌+◌, ◌<◌, ◌≡◌, ◌∙◌, refl, sym, ap, subst, Result, ok, err, Option, some,
  none, List, arith, Bool, true, false, if◌then◌else◌, inl, inr, ◌⊎◌,
}
use vpn_ne_vpn.Prelude.Keeps.{
  Preorder, Keeps, return, get-Keeps, bind-Keeps, then-Keeps, lift-Keeps, modify-Keeps,
  return-Keeps,
}
use vpn_ne_vpn.Prelude.Outcomes.{ran_get, ran_modify, ran_require, ran_lift}
use vpn_ne_vpn.GatewayProtocol.Error.{ProtocolError, closed}
use vpn_ne_vpn.GatewayProtocol.Messages.{GatewayFrame, Body}
use vpn_ne_vpn.GatewayProtocol.Scheduler.{OutboundItem, pop_next}
use vpn_ne_vpn.GatewayProtocol.Scheduler.Invariant.{IsValid}
use vpn_ne_vpn.GatewayProtocol.Scheduler.Dequeue.{pop_next-IsValid}
use vpn_ne_vpn.GatewayProtocol.Scheduler.Drain.{frames, taken, pop_next-frames, pop_next-idle}
use vpn_ne_vpn.GatewayProtocol.Session.{Session, is_closed}
use vpn_ne_vpn.GatewayProtocol.Session.Inbound.{
  send_item, flush_one_inner, flush_one, close_on_error,
}
use vpn_ne_vpn.GatewayProtocol.Session.Flush.{Flushed, carry_on, flush_rounds, flush_all}

abbrev queueing : Preorder Session
queueing = record {
  Rel = λ s t. t.scheduler ≡ s.scheduler;
  stays = λ s. refl;
  joins = λ s t u h l. l ∙ h;
}

abbrev sent : Result ProtocolError (Option GatewayFrame) → ℕ
sent (ok r) = taken r
sent (err e) = 0

module _ (encode_message : GatewayFrame → List ℕ) where
  send_item-Keeps :
      (written : Result ProtocolError (Unit {0})) (i : Option (OutboundItem Body))
      → Keeps queueing (send_item encode_message written i)
  send_item-Keeps written none = return-Keeps queueing _
  send_item-Keeps written (some i) = bind-Keeps queueing _ _ (get-Keeps queueing) λ s.
      bind-Keeps queueing _ _ (lift-Keeps queueing _) λ next.
        then-Keeps queueing _ _ (modify-Keeps queueing _ λ t. refl) (
          then-Keeps queueing _ _ (lift-Keeps queueing _) (
            bind-Keeps queueing _ _ (lift-Keeps queueing _)
              λ bytes. then-Keeps queueing _ _ (lift-Keeps queueing _) (return-Keeps queueing _)))

  send_item-taken :
      (written : Result ProtocolError (Unit {0})) (i : Option (OutboundItem Body)) (s t : Session)
      (r : Option GatewayFrame)
      → send_item encode_message written i s ≡ (t, ok r)
      → taken r ≡ taken i
  unfolding return
  send_item-taken written none s t r h = sym (ap (λ x. sent x.1) h)
  send_item-taken written (some i) s t r h =
      let a = ran_lift _ _ (ran_get _ h) in
      let b = ran_lift _ _ (ran_require _ _ (ran_modify _ _ a.1.1)).1 in
      sym (ap (λ x. sent x.1) (ran_require _ _ b.1.1).1)

  -- One round: what is queued and what was sent make up what was queued.
  abbrev IsRound : Session → Session × Result ProtocolError (Option GatewayFrame) → Type 0
  IsRound s x =
      (r : Option GatewayFrame)
      → x.1 ≡ ok r
      → IsValid x.0.scheduler
        × (frames x.0.scheduler + taken r ≡ frames s.scheduler)
        × (taken r ≡ 0 → frames s.scheduler ≡ 0)

  flush_one_inner-IsRound :
      (written : Result ProtocolError (Unit {0})) (s : Session)
      → IsValid s.scheduler
      → IsRound s (flush_one_inner encode_message written s)
  unfolding flush_one_inner
  flush_one_inner-IsRound written s v r h =
      let start : Session = record s { scheduler = (pop_next s.scheduler).0 } in
      let same = (send_item-Keeps written (pop_next s.scheduler).1).moves start in
      let count =
        send_item-taken written (pop_next s.scheduler).1 start _ r
          (ap (λ x. ((flush_one_inner encode_message written s).0, x)) h) in
      (
        subst (λ q. IsValid q) (sym same) (pop_next-IsValid s.scheduler v),
        ap (λ q. frames q + taken r) same
            ∙ ap (λ n. frames (pop_next s.scheduler).0 + n) count
            ∙ pop_next-frames s.scheduler v,
        λ e. pop_next-idle s.scheduler v (sym count ∙ e),
      )

  closed-IsRound :
      (s : Session) (x : Session × Result ProtocolError (Option GatewayFrame))
      → IsRound s x
      → IsRound s (close_on_error x)
  closed-IsRound s (t, ok r) h = h
  closed-IsRound s (t, err e) h = λ r l. absurd (cc l)

  if-IsRound :
      (b : Bool) (s : Session) (x : Session × Result ProtocolError (Option GatewayFrame))
      → IsRound s x
      → IsRound s (if b then (s, err closed) else x)
  if-IsRound true s x h = λ r l. absurd (cc l)
  if-IsRound false s x h = h

  flush_one-IsRound :
      (written : Result ProtocolError (Unit {0})) (s : Session)
      → IsValid s.scheduler
      → IsRound s (flush_one encode_message written s)
  unfolding flush_one
  flush_one-IsRound written s v =
      if-IsRound (is_closed s.phase) s _ (closed-IsRound s _ (flush_one_inner-IsRound written s v))

  module _ (written : ℕ → Result ProtocolError (Unit {0})) where
    -- The loop has ended, with an error or with no frame in the queues.
    abbrev Drained : Session × Result ProtocolError (Unit {0}) → Type 0
    Drained x = ((e : ProtocolError) × (x.1 ≡ err e)) ⊎ (frames x.0.scheduler ≡ 0)

    abbrev HasDrained : Flushed → Type 0
    HasDrained o = (x : Session × Result ProtocolError (Unit {0})) × ((o ≡ some x) × Drained x)

    carry_on-HasDrained :
        (fuel : ℕ) (s : Session) (x : Session × Result ProtocolError (Option GatewayFrame))
        → IsRound s x
        → frames s.scheduler < suc fuel
        → ((t : Session)
            → IsValid t.scheduler
            → frames t.scheduler < fuel
            → HasDrained (flush_rounds encode_message written fuel t))
        → HasDrained (carry_on x (flush_rounds encode_message written fuel))
    carry_on-HasDrained fuel s (t, ok (some frame)) a n next =
        let b = a (some frame) refl in next t b.0 (omega (arith, n, b.1))
    carry_on-HasDrained fuel s (t, ok none) a n next =
        let b = a none refl in ((t, ok tt), (refl, inr (omega (arith, b.1, b.2 refl))))
    carry_on-HasDrained fuel s (t, err e) a n next = ((t, err e), (refl, inl (e, refl)))

    flush_rounds-HasDrained :
        (fuel : ℕ) (s : Session)
        → IsValid s.scheduler
        → frames s.scheduler < fuel
        → HasDrained (flush_rounds encode_message written fuel s)
    unfolding flush_rounds
    flush_rounds-HasDrained zero s v n = absurd (omega (arith, n))
    flush_rounds-HasDrained (suc fuel) s v n =
        carry_on-HasDrained fuel s _ (flush_one-IsRound (written s.next_send_sequence) s v) n
          (λ t w m. flush_rounds-HasDrained fuel t w m)

    carry_on_same :
        (m n : ℕ) (s : Session) (x : Session × Result ProtocolError (Option GatewayFrame))
        → IsRound s x
        → frames s.scheduler < suc m
        → frames s.scheduler < suc n
        → ((t : Session)
            → IsValid t.scheduler
            → frames t.scheduler < m
            → frames t.scheduler < n
            → flush_rounds encode_message written m t ≡ flush_rounds encode_message written n t)
        → carry_on x (flush_rounds encode_message written m)
          ≡ carry_on x (flush_rounds encode_message written n)
    carry_on_same m n s (t, ok (some frame)) a h l next =
        let b = a (some frame) refl in next t b.0 (omega (arith, h, b.1)) (omega (arith, l, b.1))
    carry_on_same m n s (t, ok none) a h l next = refl
    carry_on_same m n s (t, err e) a h l next = refl

    flush_rounds_same :
        (m n : ℕ) (s : Session)
        → IsValid s.scheduler
        → frames s.scheduler < m
        → frames s.scheduler < n
        → flush_rounds encode_message written m s ≡ flush_rounds encode_message written n s
    unfolding flush_rounds
    flush_rounds_same zero n s v h l = absurd (omega (arith, h))
    flush_rounds_same (suc m) zero s v h l = absurd (omega (arith, l))
    flush_rounds_same (suc m) (suc n) s v h l =
        carry_on_same m n s _ (flush_one-IsRound (written s.next_send_sequence) s v) h l
          (λ t w a b. flush_rounds_same m n t w a b)

    -- The loop of `flush_all` ends, whatever the transport answers: on a valid scheduler, any number
    -- of rounds above that of the queued frames does not run out and gives what `flush_all` gives,
    -- which is an error or leaves no frame in the queues.
    pub flush_all_drains :
        (s : Session) (rounds : ℕ)
        → IsValid s.scheduler
        → frames s.scheduler < rounds
        → (flush_rounds encode_message written rounds s ≡ some (flush_all encode_message written s))
          × (((e : ProtocolError) × ((flush_all encode_message written s).1 ≡ err e))
              ⊎ (frames (flush_all encode_message written s).0.scheduler ≡ 0))
    unfolding flush_all
    flush_all_drains s rounds v h =
        let enough = suc (frames s.scheduler) in
        let (x, (ended, drained)) = flush_rounds-HasDrained enough s v (omega arith) in
        let all = sym (ap (λ o. unwrap_or o (s, ok tt)) ended) in
        (
          flush_rounds_same rounds enough s v h (omega arith) ∙ ended ∙ ap some all,
          subst Drained all drained,
        )
