-- ===== src/GatewayProtocol/Flow/Ids.antt =====
-- crates/gateway-protocol/src/flow.rs: an id serves one stream, and a half-closed stream sends no more.
use vpn_ne_vpn.Prelude.{
  ℕ, ◌+◌, ◌-◌, ◌≤◌, ◌≡◌, Bool, true, false, ok, err, Option, some, none, List, [], ◌∷◌, ◌==◌,
  ==_iff, arith, inl, inr, Option-cases, is_ok, Bool-cases, ◌&&◌, ◌≢◌, subst, ap, sym, ◌∙◌,
}
use vpn_ne_vpn.Prelude.Maps.{lookup, insert, nat_eq, lookup-insert, lookup-remove, lookup-Entries}
use vpn_ne_vpn.GatewayProtocol.Error.{invalid_stream_id}
use vpn_ne_vpn.GatewayProtocol.Flow.Invariant.{IsValid, IsStream}
use vpn_ne_vpn.GatewayProtocol.Flow.{
  is_opened, opening_local, opening_remote, FlowController, StreamState, opened, Op, opens_local,
  receives_open, confirms, accepts, closes, sends, receives, updates, grants, half_closes,
  receives_half_close, perform, run, debit_send, local_half_close,
}

perform-seen :
    (o : Op) (f : FlowController)
    → f.maximum_seen_stream_id ≤ (perform o f).0.maximum_seen_stream_id
unfolding perform
perform-seen (opens_local id w t) f = ground arith
perform-seen _ f = ground arith

run-seen :
    (os : List Op) (f : FlowController)
    → f.maximum_seen_stream_id ≤ (run f os).maximum_seen_stream_id
unfolding run
run-seen [] f = omega arith
run-seen (o ∷ os) f = omega (arith, perform-seen o f, run-seen os (perform o f).0)

-- An open for one of the two sides.
pub data IsOpen (id : ℕ) : Op → Type 0 where
  here : (w t : ℕ) → IsOpen id (opens_local id w t)
  there : (w t : ℕ) → IsOpen id (receives_open id w t)

open-seen :
    (id : ℕ) (o : Op) (f : FlowController)
    → IsOpen id o
    → (perform o f).1 ≡ ok tt
    → (perform o f).0.maximum_seen_stream_id ≡ id
unfolding perform
open-seen id o f (here w t) h = ground arith
open-seen id o f (there w t) h = ground arith

open_refused :
    (id : ℕ) (o : Op) (f : FlowController)
    → IsOpen id o
    → id ≤ f.maximum_seen_stream_id
    → perform o f ≡ (f, err invalid_stream_id)
unfolding perform
open_refused id o f (here w t) h = ground arith
open_refused id o f (there w t) h = ground arith

-- Once an id has been opened by either side, no history of calls makes it free again: every later
-- open of it, by either side, fails and changes nothing.
pub reopen_refused :
    (id : ℕ) (o p : Op) (f : FlowController) (os : List Op)
    → IsOpen id o
    → IsOpen id p
    → (perform o f).1 ≡ ok tt
    → let g = run (perform o f).0 os in perform p g ≡ (g, err invalid_stream_id)
reopen_refused id o p f os first again h =
    open_refused id p (run (perform o f).0 os) again
      (omega (arith, open-seen id o f first h, run-seen os (perform o f).0))

-- A stream that is gone, or open and half closed here.
abbrev silent : Option StreamState → Bool
silent none = true
silent (some s) = s.local_half_closed && is_opened s.phase

record IsSilent (id : ℕ) (f : FlowController) : Type 0 where
  seen : id ≤ f.maximum_seen_stream_id
  quiet : silent (lookup id f.streams) ≡ true

-- Writing back a stream keeps another one, and keeps this one where it stays silent.
insert-silent :
    (id i : ℕ) (s t : StreamState) (ss : List (ℕ × StreamState))
    → lookup i ss ≡ some s
    → silent (lookup id ss) ≡ true
    → (silent (some s) ≡ true → silent (some t) ≡ true)
    → silent (lookup id (insert i t ss)) ≡ true
insert-silent id i s t ss e q k = elim (Bool-cases (i == id)) [
  | inl h ↦
      rw (lookup-insert i id t ss, h)
        (k (subst (λ o. silent o ≡ true) (ap (λ j. lookup j ss) (sym ((==_iff i id).0 h)) ∙ e) q))
  | inr h ↦ rw (lookup-insert i id t ss, h) q
]

perform-IsSilent :
    (id : ℕ) (o : Op) (f : FlowController) → IsSilent id f → IsSilent id (perform o f).0
unfolding perform
perform-IsSilent id (opens_local i w t) f v = ground (
  arith,
  lookup-insert i id
      (record {
        phase = opening_local;
        send_window = 0;
        receive_window = w;
        local_half_closed = false;
        remote_half_closed = false;
        last_activity = t;
      })
      f.streams,
)
perform-IsSilent id (receives_open i w t) f v = ground (
  arith,
  lookup-insert i id
      (record {
        phase = opening_remote;
        send_window = w;
        receive_window = 0;
        local_half_closed = false;
        remote_half_closed = false;
        last_activity = t;
      })
      f.streams,
)
perform-IsSilent id (closes i) f v = ground (arith, lookup-remove i id f.streams)
perform-IsSilent id (confirms i w now) f v = elim (Option-cases (lookup i f.streams)) [
  | inl e ↦ ground arith
  | inr (s, e) ↦ ground (
    arith,
    insert-silent id i s (record s { phase = opened; send_window = w; last_activity = now })
        f.streams e,
  )
]
perform-IsSilent id (accepts i w now) f v = elim (Option-cases (lookup i f.streams)) [
  | inl e ↦ ground arith
  | inr (s, e) ↦ ground (
    arith,
    insert-silent id i s (record s { phase = opened; receive_window = w; last_activity = now })
        f.streams e,
  )
]
perform-IsSilent id (sends i n now) f v = elim (Option-cases (lookup i f.streams)) [
  | inl e ↦ ground arith
  | inr (s, e) ↦ ground (
    arith,
    insert-silent id i s (record s { send_window = s.send_window - n; last_activity = now })
        f.streams e,
  )
]
perform-IsSilent id (receives i n now) f v = elim (Option-cases (lookup i f.streams)) [
  | inl e ↦ ground arith
  | inr (s, e) ↦ ground (
    arith,
    insert-silent id i s (record s { receive_window = s.receive_window - n; last_activity = now })
        f.streams e,
  )
]
perform-IsSilent id (updates i n now) f v = elim (Option-cases (lookup i f.streams)) [
  | inl e ↦ ground arith
  | inr (s, e) ↦ ground (
    arith,
    insert-silent id i s (record s { send_window = s.send_window + n; last_activity = now })
        f.streams e,
  )
]
perform-IsSilent id (grants i n now) f v = elim (Option-cases (lookup i f.streams)) [
  | inl e ↦ ground arith
  | inr (s, e) ↦ ground (
    arith,
    insert-silent id i s (record s { receive_window = s.receive_window + n; last_activity = now })
        f.streams e,
  )
]
perform-IsSilent id (half_closes i now) f v = elim (Option-cases (lookup i f.streams)) [
  | inl e ↦ ground arith
  | inr (s, e) ↦ ground (
    arith,
    insert-silent id i s (record s { local_half_closed = true; last_activity = now }) f.streams e,
  )
]
perform-IsSilent id (receives_half_close i now) f v = elim (Option-cases (lookup i f.streams)) [
  | inl e ↦ ground arith
  | inr (s, e) ↦ ground (
    arith,
    insert-silent id i s (record s { remote_half_closed = true; last_activity = now }) f.streams e,
  )
]

run-IsSilent : (id : ℕ) (os : List Op) (f : FlowController) → IsSilent id f → IsSilent id (run f os)
unfolding run
run-IsSilent id [] f v = v
run-IsSilent id (o ∷ os) f v = run-IsSilent id os (perform o f).0 (perform-IsSilent id o f v)

half_close-IsSilent :
    (id now : ℕ) (f : FlowController)
    → IsValid f
    → (local_half_close id now f).1 ≡ ok tt
    → IsSilent id (local_half_close id now f).0
unfolding local_half_close
half_close-IsSilent id now f v h = elim (Option-cases (lookup id f.streams)) [
  | inl e ↦ absurd (ground arith)
  | inr (s, e) ↦ ground (
    arith,
    lookup-insert id id (record s { local_half_closed = true; last_activity = now }) f.streams,
    lookup-Entries (IsStream f.maximum_seen_stream_id) id s f.streams v.entries e,
  )
]

send_refused :
    (id n now : ℕ) (f : FlowController)
    → silent (lookup id f.streams) ≡ true
    → (debit_send id n now f).1 ≢ ok tt
unfolding debit_send
send_refused id n now f q h = elim (Option-cases (lookup id f.streams)) [
  | inl e ↦ ground arith
  | inr (s, e) ↦ ground arith
]

-- After a local half-close of a valid ledger's stream no byte is sent on its id any more, whatever
-- calls come between: each later send on it fails.
pub half_close_silences :
    (id n now later : ℕ) (f : FlowController) (os : List Op)
    → IsValid f
    → (local_half_close id now f).1 ≡ ok tt
    → is_ok (debit_send id n later (run (local_half_close id now f).0 os)).1 ≡ false
half_close_silences id n now later f os v h =
    let g = run (local_half_close id now f).0 os in
    ground (
      arith,
      send_refused id n later g (run-IsSilent id os _ (half_close-IsSilent id now f v h)).quiet,
    )
