-- ===== src/GatewayProtocol/Flow/Invariant.antt =====
-- crates/gateway-protocol/src/flow.rs: what holds of a ledger between two calls.
use vpn_ne_vpn.Prelude.{
  ℕ, false, true, ◌⊎◌, ◌-◌, ◌+◌, ◌≤◌, ◌≡◌, ok, err, some, none, List, [], ◌∷◌, length, arith,
  Option-cases, inl, inr,
}
use vpn_ne_vpn.Prelude.Maps.{
  lookup, nat_eq, Entries, Distinct, insert-Entries, remove-Entries, lookup-Entries,
  insert-Distinct, remove-Distinct, length-insert, length-remove-le,
}
use vpn_ne_vpn.GatewayProtocol.Error.{ProtocolError}
use vpn_ne_vpn.GatewayProtocol.Limits.{max_stream_window, max_connection_window}
use vpn_ne_vpn.GatewayProtocol.Flow.{
  opened, opening_local, opening_remote, FlowController, StreamPhase, StreamState, Op, new,
  opens_local, receives_open, confirms, accepts, closes, sends, receives, updates, grants,
  half_closes, receives_half_close, perform, run, set_stream, debit_send, debit_receive,
  reject_or_close, insert_new_stream, confirm_local_open, accept_remote_open, receive_window_update,
  grant_receive_credit, local_half_close, receive_half_close,
}

-- A stream's windows are bounded and its id is one that was seen.
pub record IsStream (seen id : ℕ) (s : StreamState) : Type 0 where
  pub known : id ≤ seen
  pub send_bounded : s.send_window ≤ max_stream_window
  pub receive_bounded : s.receive_window ≤ max_stream_window

pub record IsValid (f : FlowController) : Type 0 where
  pub send_bounded : f.connection_send_window ≤ max_connection_window
  pub receive_bounded : f.connection_receive_window ≤ max_connection_window
  pub count_bounded : length f.streams ≤ f.maximum_concurrent_streams
  pub entries : Entries (IsStream f.maximum_seen_stream_id) f.streams
  pub distinct : Distinct f.streams

Entries-mono :
    (m n : ℕ) (ss : List (ℕ × StreamState))
    → m ≤ n
    → Entries (IsStream m) ss
    → Entries (IsStream n) ss
Entries-mono m n [] h v = tt
Entries-mono m n ((id, s) ∷ ss) h v = (omega arith, Entries-mono m n ss h v.1)

-- Writing back a stream that stood in the ledger keeps it valid.
set_stream-IsValid :
    (id : ℕ) (s t : StreamState) (f : FlowController)
    → IsValid f
    → lookup id f.streams ≡ some s
    → t.send_window ≤ max_stream_window
    → t.receive_window ≤ max_stream_window
    → IsValid (set_stream id t f)
set_stream-IsValid id s t f v l a b = record {
  send_bounded = v.send_bounded;
  receive_bounded = v.receive_bounded;
  count_bounded = ground (arith, length-insert id t f.streams, v.count_bounded);
  entries = insert-Entries (IsStream f.maximum_seen_stream_id) id t f.streams v.entries (record {
    known = (lookup-Entries (IsStream f.maximum_seen_stream_id) id s f.streams v.entries l).known;
    send_bounded = a;
    receive_bounded = b;
  });
  distinct = insert-Distinct id t f.streams v.distinct;
}

-- A call that fails leaves the ledger as it was.
pub perform_atomic :
    (o : Op) (f : FlowController) (e : ProtocolError)
    → (perform o f).1 ≡ err e
    → (perform o f).0 ≡ f
unfolding perform
perform_atomic (opens_local id w t) f e h = ground arith
perform_atomic _ f e h = ground arith

insert_new_stream-IsValid :
    (id : ℕ) (p : StreamPhase) (a b t : ℕ) (f : FlowController)
    → IsValid f
    → IsValid (insert_new_stream id p a b t f).0
unfolding insert_new_stream
insert_new_stream-IsValid id p a b t f v = ground (
  arith,
  Entries-mono f.maximum_seen_stream_id id f.streams,
  insert-Entries (IsStream id) id s f.streams,
  length-insert id s f.streams,
  insert-Distinct id s f.streams,
)
  where
    s : StreamState
    s = record {
      phase = p;
      send_window = a;
      receive_window = b;
      local_half_closed = false;
      remote_half_closed = false;
      last_activity = t;
    }

-- The stream that a call finds, if it finds one, is within its bounds.
stream_cases :
    (id : ℕ) (f : FlowController)
    → IsValid f
    → (lookup id f.streams ≡ none)
      ⊎ ((s : StreamState) × (lookup id f.streams ≡ some s)
          × (s.send_window ≤ max_stream_window)
          × (s.receive_window ≤ max_stream_window)
          × ((t : StreamState)
              → t.send_window ≤ max_stream_window
              → t.receive_window ≤ max_stream_window
              → IsValid (set_stream id t f)))
stream_cases id f v = elim (Option-cases (lookup id f.streams)) [
  | inl e ↦ inl e
  | inr (s, e) ↦
      let b = lookup-Entries (IsStream f.maximum_seen_stream_id) id s f.streams v.entries e in
      inr (s, e, b.send_bounded, b.receive_bounded, λ t. set_stream-IsValid id s t f v e)
]

confirm_local_open-IsValid :
    (id w now : ℕ) (f : FlowController) → IsValid f → IsValid (confirm_local_open id w now f).0
unfolding confirm_local_open
confirm_local_open-IsValid id w now f v = elim (stream_cases id f v) [
  | inl e ↦ ground arith
  | inr (s, e, a, b, keep) ↦
      ground (arith, keep (record s { phase = opened; send_window = w; last_activity = now }))
]

accept_remote_open-IsValid :
    (id w now : ℕ) (f : FlowController) → IsValid f → IsValid (accept_remote_open id w now f).0
unfolding accept_remote_open
accept_remote_open-IsValid id w now f v = elim (stream_cases id f v) [
  | inl e ↦ ground arith
  | inr (s, e, a, b, keep) ↦
      ground (arith, keep (record s { phase = opened; receive_window = w; last_activity = now }))
]

debit_send-IsValid :
    (id n now : ℕ) (f : FlowController) → IsValid f → IsValid (debit_send id n now f).0
unfolding debit_send
debit_send-IsValid id n now f v = elim (stream_cases id f v) [
  | inl e ↦ ground arith
  | inr (s, e, a, b, keep) ↦
      ground (arith, keep (record s { send_window = s.send_window - n; last_activity = now }))
]

debit_receive-IsValid :
    (id n now : ℕ) (f : FlowController) → IsValid f → IsValid (debit_receive id n now f).0
unfolding debit_receive
debit_receive-IsValid id n now f v = elim (stream_cases id f v) [
  | inl e ↦ ground arith
  | inr (s, e, a, b, keep) ↦
      ground (arith, keep (record s { receive_window = s.receive_window - n; last_activity = now }))
]

receive_window_update-IsValid :
    (id n now : ℕ) (f : FlowController) → IsValid f → IsValid (receive_window_update id n now f).0
unfolding receive_window_update
receive_window_update-IsValid id n now f v = elim (stream_cases id f v) [
  | inl e ↦ ground arith
  | inr (s, e, a, b, keep) ↦
      ground (arith, keep (record s { send_window = s.send_window + n; last_activity = now }))
]

grant_receive_credit-IsValid :
    (id n now : ℕ) (f : FlowController) → IsValid f → IsValid (grant_receive_credit id n now f).0
unfolding grant_receive_credit
grant_receive_credit-IsValid id n now f v = elim (stream_cases id f v) [
  | inl e ↦ ground arith
  | inr (s, e, a, b, keep) ↦
      ground (arith, keep (record s { receive_window = s.receive_window + n; last_activity = now }))
]

local_half_close-IsValid :
    (id now : ℕ) (f : FlowController) → IsValid f → IsValid (local_half_close id now f).0
unfolding local_half_close
local_half_close-IsValid id now f v = elim (stream_cases id f v) [
  | inl e ↦ ground arith
  | inr (s, e, a, b, keep) ↦
      ground (arith, keep (record s { local_half_closed = true; last_activity = now }))
]

receive_half_close-IsValid :
    (id now : ℕ) (f : FlowController) → IsValid f → IsValid (receive_half_close id now f).0
unfolding receive_half_close
receive_half_close-IsValid id now f v = elim (stream_cases id f v) [
  | inl e ↦ ground arith
  | inr (s, e, a, b, keep) ↦
      ground (arith, keep (record s { remote_half_closed = true; last_activity = now }))
]

reject_or_close-IsValid :
    (id : ℕ) (f : FlowController) → IsValid f → IsValid (reject_or_close id f).0
unfolding reject_or_close
reject_or_close-IsValid id f v = ground (
  arith,
  length-remove-le id f.streams,
  remove-Entries (IsStream f.maximum_seen_stream_id) id f.streams v.entries,
  remove-Distinct id f.streams v.distinct,
)

-- Every call of a session keeps the ledger valid: the windows of the connection and of every stream
-- within their maxima, no more streams than allowed, no stream twice, and every id one that was seen.
pub perform-IsValid : (o : Op) (f : FlowController) → IsValid f → IsValid (perform o f).0
unfolding perform
perform-IsValid (opens_local id w t) f v = insert_new_stream-IsValid id opening_local 0 w t f v
perform-IsValid (receives_open id w t) f v = insert_new_stream-IsValid id opening_remote w 0 t f v
perform-IsValid (confirms id w t) f v = confirm_local_open-IsValid id w t f v
perform-IsValid (accepts id w t) f v = accept_remote_open-IsValid id w t f v
perform-IsValid (closes id) f v = reject_or_close-IsValid id f v
perform-IsValid (sends id n t) f v = debit_send-IsValid id n t f v
perform-IsValid (receives id n t) f v = debit_receive-IsValid id n t f v
perform-IsValid (updates id n t) f v = receive_window_update-IsValid id n t f v
perform-IsValid (grants id n t) f v = grant_receive_credit-IsValid id n t f v
perform-IsValid (half_closes id t) f v = local_half_close-IsValid id t f v
perform-IsValid (receives_half_close id t) f v = receive_half_close-IsValid id t f v

pub run-IsValid : (os : List Op) (f : FlowController) → IsValid f → IsValid (run f os)
unfolding run
run-IsValid [] f v = v
run-IsValid (o ∷ os) f v = run-IsValid os (perform o f).0 (perform-IsValid o f v)

pub new-IsValid : (p l m : ℕ) (f : FlowController) → new p l m ≡ ok f → IsValid f
unfolding new
new-IsValid p l m f h = ground arith

-- A ledger that `new` accepts is valid after any history of calls, failed ones included.
pub new-run-IsValid :
    (p l m : ℕ) (f : FlowController) (os : List Op) → new p l m ≡ ok f → IsValid (run f os)
new-run-IsValid p l m f os h = run-IsValid os f (new-IsValid p l m f h)
