-- ===== src/GatewayProtocol/Flow.antt =====
-- crates/gateway-protocol/src/flow.rs: the ledger of flow-control credit. `Instant::now()` is an
-- argument of each method that reads it. A method that fails may leave a changed state, so each
-- returns the state beside its result.
pub mod Invariant
pub mod Credit
pub mod Ids
mod Tests
use vpn_ne_vpn.Prelude.{
  ℕ, ◌+◌, ◌-◌, ◌%◌, Bool, true, false, ◌&&◌, ◌||◌, not, if◌then◌else◌, ltb, leb, ◌==◌, Result, ok,
  err, ok_or, and_then, Option, none, some, List, [], ◌∷◌, length, Method, resume, ◌>>=◌, ◌>>◌,
  return, get, put, lift, fail_if, checked_add,
}
use vpn_ne_vpn.Prelude.Maps.{Map, lookup, insert, remove, contains_key, nat_eq}
use vpn_ne_vpn.GatewayProtocol.Error.{
  ProtocolError, invalid_field, protocol_violation, backpressure, stream_limit, invalid_stream_id,
  flow_control_violation, integer_overflow, closed,
}
use vpn_ne_vpn.GatewayProtocol.Limits.{max_stream_window, max_connection_window}

pub data StreamPhase : Type 0 where
  opening_local opening_remote opened : StreamPhase

abbrev pub is_opening_local : StreamPhase → Bool
is_opening_local opening_local = true
is_opening_local _ = false

abbrev pub is_opening_remote : StreamPhase → Bool
is_opening_remote opening_remote = true
is_opening_remote _ = false

abbrev pub is_opened : StreamPhase → Bool
is_opened opened = true
is_opened _ = false

pub record StreamState : Type 0 where
  pub phase : StreamPhase
  pub send_window : ℕ
  pub receive_window : ℕ
  pub local_half_closed : Bool
  pub remote_half_closed : Bool
  pub last_activity : ℕ

pub record FlowController : Type 0 where
  pub connection_send_window : ℕ
  pub connection_receive_window : ℕ
  pub maximum_concurrent_streams : ℕ
  pub maximum_seen_stream_id : ℕ
  pub streams : Map ℕ StreamState

abbrev pub Call : Type 0
Call = Method FlowController ProtocolError (Unit {0})

unfoldable pub new : ℕ → ℕ → ℕ → Result ProtocolError FlowController
new peer_window local_window maximum_streams =
    if peer_window == 0
      || local_window == 0
      || ltb max_connection_window peer_window
      || ltb max_connection_window local_window
      || maximum_streams == 0
    then err (invalid_field "flow_controller_limits")
    else ok (record {
      connection_send_window = peer_window;
      connection_receive_window = local_window;
      maximum_concurrent_streams = maximum_streams;
      maximum_seen_stream_id = 0;
      streams = [];
    })

-- `validate_stream_id` of validation.rs; `id & 1` is `id % 2`.
unfoldable pub validate_stream_id : ℕ → Result ProtocolError (Unit {0})
validate_stream_id id = if id == 0 || id % 2 == 0 then err invalid_stream_id else ok tt

unfoldable pub validate_window : ℕ → Result ProtocolError (Unit {0})
validate_window w =
    if w == 0 || ltb max_stream_window w then err (invalid_field "stream_window") else ok tt

unfoldable pub checked_credit_add : ℕ → ℕ → ℕ → Result ProtocolError ℕ
checked_credit_add current credit maximum =
    and_then (ok_or (checked_add current credit) integer_overflow)
      λ updated. if ltb maximum updated then err flow_control_violation else ok updated

-- The stream that `stream_mut` lends; the caller writes it back by `set_stream`.
unfoldable pub stream_mut : ℕ → FlowController → Result ProtocolError StreamState
unfolding validate_stream_id
stream_mut id f =
    and_then (validate_stream_id id) λ _. ok_or (lookup id f.streams) invalid_stream_id

abbrev pub set_stream : ℕ → StreamState → FlowController → FlowController
set_stream id s f = record f { streams = insert id s f.streams }

unfoldable pub insert_new_stream : ℕ → StreamPhase → ℕ → ℕ → ℕ → Call
unfolding validate_stream_id validate_window
insert_new_stream id phase send receive now = do
  lift (validate_stream_id id)
  f ← get
  fail_if (leb id f.maximum_seen_stream_id || contains_key id f.streams) invalid_stream_id
  fail_if (leb f.maximum_concurrent_streams (length f.streams)) stream_limit
  lift (if not (send == 0) then validate_window send else ok tt)
  lift (if not (receive == 0) then validate_window receive else ok tt)
  let s : StreamState = record {
    phase = phase;
    send_window = send;
    receive_window = receive;
    local_half_closed = false;
    remote_half_closed = false;
    last_activity = now;
  }
  put (record f { maximum_seen_stream_id = id; streams = insert id s f.streams })

unfoldable pub open_local : ℕ → ℕ → ℕ → Call
unfolding insert_new_stream
open_local id local_receive_window now =
    insert_new_stream id opening_local 0 local_receive_window now

unfoldable pub receive_open : ℕ → ℕ → ℕ → Call
unfolding insert_new_stream
receive_open id peer_receive_window now =
    insert_new_stream id opening_remote peer_receive_window 0 now

unfoldable pub confirm_local_open : ℕ → ℕ → ℕ → Call
unfolding validate_window stream_mut
confirm_local_open id peer_receive_window now = do
  lift (validate_window peer_receive_window)
  f ← get
  s ← lift (stream_mut id f)
  fail_if (not (is_opening_local s.phase)) (protocol_violation "unexpected stream-open response")
  put (
      set_stream id
        (record s { phase = opened; send_window = peer_receive_window; last_activity = now }) f)

unfoldable pub accept_remote_open : ℕ → ℕ → ℕ → Call
unfolding validate_window stream_mut
accept_remote_open id local_receive_window now = do
  lift (validate_window local_receive_window)
  f ← get
  s ← lift (stream_mut id f)
  fail_if (not (is_opening_remote s.phase)) (protocol_violation "unexpected stream acceptance")
  put (
      set_stream id
        (record s { phase = opened; receive_window = local_receive_window; last_activity = now }) f)

unfoldable pub reject_or_close : ℕ → Call
unfolding validate_stream_id
reject_or_close id = do
  lift (validate_stream_id id)
  f ← get
  _ ← lift (ok_or (lookup id f.streams) invalid_stream_id)
  put (record f { streams = remove id f.streams })

-- The stream is written first and the connection's window last, as in the code.
unfoldable pub debit_send : ℕ → ℕ → ℕ → Call
unfolding stream_mut
debit_send id amount now = do
  fail_if (amount == 0) (invalid_field "data_length")
  f ← get
  fail_if (ltb f.connection_send_window amount) backpressure
  s ← lift (stream_mut id f)
  fail_if (not (is_opened s.phase) || s.local_half_closed) closed
  fail_if (ltb s.send_window amount) backpressure
  put (set_stream id (record s { send_window = s.send_window - amount; last_activity = now }) f)
  f' ← get
  put (record f' { connection_send_window = f'.connection_send_window - amount })

-- `invalid_stream` of `debit_receive`.
abbrev pub cannot_receive : ℕ → Option StreamState → Bool
cannot_receive amount none = true
cannot_receive amount (some s) =
    not (is_opened s.phase) || s.remote_half_closed || ltb s.receive_window amount

unfoldable pub debit_receive : ℕ → ℕ → ℕ → Call
unfolding stream_mut
debit_receive id amount now = do
  f ← get
  fail_if
      (amount == 0
        || ltb f.connection_receive_window amount
        || cannot_receive amount (lookup id f.streams))
      flow_control_violation
  s ← lift (stream_mut id f)
  put (
      set_stream id (record s { receive_window = s.receive_window - amount; last_activity = now })
        f)
  f' ← get
  put (record f' { connection_receive_window = f'.connection_receive_window - amount })

update_connection_send : ℕ → Call
unfolding checked_credit_add
update_connection_send credit = do
  f ← get
  w ← lift (checked_credit_add f.connection_send_window credit max_connection_window)
  put (record f { connection_send_window = w })

update_stream_send : ℕ → ℕ → ℕ → Call
unfolding checked_credit_add stream_mut
update_stream_send id credit now = do
  f ← get
  s ← lift (stream_mut id f)
  w ← lift (checked_credit_add s.send_window credit max_stream_window)
  put (set_stream id (record s { send_window = w; last_activity = now }) f)

unfoldable pub receive_window_update : ℕ → ℕ → ℕ → Call
unfolding update_connection_send update_stream_send
receive_window_update id credit now = do
  fail_if (credit == 0) flow_control_violation
  if id == 0 then update_connection_send credit else update_stream_send id credit now

grant_connection_receive : ℕ → Call
unfolding checked_credit_add
grant_connection_receive credit = do
  f ← get
  w ← lift (checked_credit_add f.connection_receive_window credit max_connection_window)
  put (record f { connection_receive_window = w })

grant_stream_receive : ℕ → ℕ → ℕ → Call
unfolding checked_credit_add stream_mut
grant_stream_receive id credit now = do
  f ← get
  s ← lift (stream_mut id f)
  w ← lift (checked_credit_add s.receive_window credit max_stream_window)
  put (set_stream id (record s { receive_window = w; last_activity = now }) f)

unfoldable pub grant_receive_credit : ℕ → ℕ → ℕ → Call
unfolding grant_connection_receive grant_stream_receive
grant_receive_credit id credit now = do
  fail_if (credit == 0) (invalid_field "window_credit")
  if id == 0 then grant_connection_receive credit else grant_stream_receive id credit now

unfoldable pub local_half_close : ℕ → ℕ → Call
unfolding stream_mut
local_half_close id now = do
  f ← get
  s ← lift (stream_mut id f)
  fail_if (not (is_opened s.phase) || s.local_half_closed) closed
  put (set_stream id (record s { local_half_closed = true; last_activity = now }) f)

unfoldable pub receive_half_close : ℕ → ℕ → Call
unfolding stream_mut
receive_half_close id now = do
  f ← get
  s ← lift (stream_mut id f)
  fail_if (not (is_opened s.phase) || s.remote_half_closed)
      (protocol_violation "duplicate remote half-close")
  put (set_stream id (record s { remote_half_closed = true; last_activity = now }) f)

-- The streams idle for `timeout`, in the order of the map; an activity after `now` is not idle.
unfoldable pub expired : ℕ → ℕ → Map ℕ StreamState → List ℕ
expired now timeout [] = []
expired now timeout ((id, s) ∷ m) =
    let rest = expired now timeout m in
    if leb s.last_activity now && leb timeout (now - s.last_activity) then id ∷ rest else rest

unfoldable pub expire_idle : FlowController → ℕ → ℕ → List ℕ
unfolding expired
expire_idle f now timeout = expired now timeout f.streams

-- What a session may ask of the ledger, with the time at which it asks.
pub data Op : Type 0 where
  opens_local receives_open confirms accepts : ℕ → ℕ → ℕ → Op
  closes : ℕ → Op
  sends receives updates grants : ℕ → ℕ → ℕ → Op
  half_closes receives_half_close : ℕ → ℕ → Op

unfoldable pub perform : Op → Call
unfolding open_local receive_open confirm_local_open accept_remote_open reject_or_close debit_send
    debit_receive receive_window_update grant_receive_credit local_half_close receive_half_close
perform (opens_local id w t) = open_local id w t
perform (receives_open id w t) = receive_open id w t
perform (confirms id w t) = confirm_local_open id w t
perform (accepts id w t) = accept_remote_open id w t
perform (closes id) = reject_or_close id
perform (sends id n t) = debit_send id n t
perform (receives id n t) = debit_receive id n t
perform (updates id n t) = receive_window_update id n t
perform (grants id n t) = grant_receive_credit id n t
perform (half_closes id t) = local_half_close id t
perform (receives_half_close id t) = receive_half_close id t

unfoldable pub run : FlowController → List Op → FlowController
unfolding perform
run f [] = f
run f (o ∷ os) = run (perform o f).0 os
