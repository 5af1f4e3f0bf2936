-- ===== src/Multihop/Mux.antt =====
-- crates/gateway-multihop/src/mux.rs: the queue of a relay's outbound frames, in turns over its
-- sessions. `control_burst += 1` is taken to stay in `usize`: it counts frames sent.
pub mod Abstraction
pub mod Refinement
mod Tests
use vpn_ne_vpn.Prelude.{
  ℕ, ◌+◌, ◌-◌, ◌%◌, Bool, true, false, ◌&&◌, ◌||◌, not, if◌then◌else◌, ltb, leb, ◌==◌, Result, ok,
  err, ok_or, and_then, Option, none, some, List, [], ◌∷◌, ◌++◌, length, null, Method, resume,
  ◌>>=◌, ◌>>◌, return, get, put, lift, fail_if, checked_add, saturating_add, unwrap_or,
}
use vpn_ne_vpn.Prelude.Maps.{Map, lookup, insert, remove, nat_eq}
use vpn_ne_vpn.Prelude.Members.{retain_ne}
use vpn_ne_vpn.Multihop.Error.{
  ErrorCode, invalid_configuration, resource_exhausted, backpressure, protocol_violation,
}

abbrev pub max_control_burst : ℕ
max_control_burst = 8

abbrev pub accounting_overhead : ℕ
accounting_overhead = 128

pub data OutboundCommand : Type 0 where
  open_command data_command : ℕ → List ℕ → OutboundCommand
  control_command : List ℕ → OutboundCommand

abbrev pub session_id : OutboundCommand → Option ℕ
session_id (open_command id encoded) = some id
session_id (data_command id payload) = some id
session_id (control_command encoded) = none

abbrev pub content : OutboundCommand → List ℕ
content (open_command id encoded) = encoded
content (data_command id payload) = payload
content (control_command encoded) = encoded

abbrev pub accounted_bytes : OutboundCommand → Result ErrorCode ℕ
accounted_bytes command =
    ok_or (checked_add (length (content command)) accounting_overhead) resource_exhausted

-- `accounted_bytes().unwrap_or(0)`
abbrev pub bytes_or_zero : Result ErrorCode ℕ → ℕ
bytes_or_zero (ok n) = n
bytes_or_zero (err e) = 0

abbrev pub bytes_of : OutboundCommand → ℕ
bytes_of command = bytes_or_zero (accounted_bytes command)

pub record FairMuxQueue : Type 0 where
  pub control : List OutboundCommand
  pub sessions : Map ℕ (List OutboundCommand)
  pub active : List ℕ
  pub per_session_bytes : Map ℕ ℕ
  pub queued_bytes : ℕ
  pub maximum_bytes : ℕ
  pub maximum_per_session_bytes : ℕ
  pub maximum_control_frames : ℕ
  pub control_burst : ℕ

unfoldable pub new : ℕ → ℕ → ℕ → Result ErrorCode FairMuxQueue
new maximum per_session control_frames =
    if maximum == 0 || per_session == 0 || ltb maximum per_session || control_frames == 0
    then err invalid_configuration
    else ok (record {
      control = [];
      sessions = [];
      active = [];
      per_session_bytes = [];
      queued_bytes = 0;
      maximum_bytes = maximum;
      maximum_per_session_bytes = per_session;
      maximum_control_frames = control_frames;
      control_burst = 0;
    })

-- The two branches of `try_push`; `total` is what is queued then.
unfoldable pub push_control : OutboundCommand → ℕ → Method FairMuxQueue ErrorCode (Unit {0})
push_control command total = do
  q ← get
  fail_if (leb q.maximum_control_frames (length q.control)) backpressure
  put (record q { control = q.control ++ (command ∷ []); queued_bytes = total })

unfoldable pub push_session : ℕ → OutboundCommand → ℕ → ℕ → Method FairMuxQueue ErrorCode (Unit {0})
push_session id command bytes total = do
  q ← get
  fail_if (id == 0 || id % 2 == 0) protocol_violation
  updated ←
      lift
        (ok_or (checked_add (unwrap_or (lookup id q.per_session_bytes) 0) bytes) resource_exhausted)
  fail_if (ltb q.maximum_per_session_bytes updated) backpressure
  let queue = unwrap_or (lookup id q.sessions) []
  put (record q {
    active = if null queue then q.active ++ (id ∷ []) else q.active;
    sessions = insert id (queue ++ (command ∷ [])) q.sessions;
    per_session_bytes = insert id updated q.per_session_bytes;
    queued_bytes = total;
  })

abbrev pub push_to : Option ℕ → OutboundCommand → ℕ → ℕ → Method FairMuxQueue ErrorCode (Unit {0})
push_to none command bytes total = push_control command total
push_to (some id) command bytes total = push_session id command bytes total

unfoldable pub try_push : OutboundCommand → Method FairMuxQueue ErrorCode (Unit {0})
unfolding push_control push_session
try_push command = do
  q ← get
  bytes ← lift (accounted_bytes command)
  total ← lift (ok_or (checked_add q.queued_bytes bytes) resource_exhausted)
  fail_if (ltb q.maximum_bytes total) backpressure
  push_to (session_id command) command bytes total

-- The first branch and the last of `pop_next`, on the frames of the control queue.
unfoldable pub pop_control :
    FairMuxQueue → ℕ → List OutboundCommand → FairMuxQueue × Option OutboundCommand
pop_control q burst [] = (record q { control_burst = burst }, none)
pop_control q burst (command ∷ rest) = (
  record q {
    control_burst = burst;
    control = rest;
    queued_bytes = q.queued_bytes - bytes_of command;
  },
  some command,
)

-- What is left of a session when its first frame is taken.
unfoldable pub settle : FairMuxQueue → ℕ → OutboundCommand → List OutboundCommand → FairMuxQueue
settle q id command queue =
    let updated = unwrap_or (lookup id q.per_session_bytes) 0 - bytes_of command in
    let t : FairMuxQueue = record q {
      control_burst = 0;
      queued_bytes = q.queued_bytes - bytes_of command;
    } in
    if null queue
    then record t {
      sessions = remove id t.sessions;
      per_session_bytes = remove id t.per_session_bytes;
    }
    else record t {
      sessions = insert id queue t.sessions;
      active = t.active ++ (id ∷ []);
      per_session_bytes = insert id updated t.per_session_bytes;
    }

-- The two `?` leave `active` without the id.
unfoldable pub pop_session :
    FairMuxQueue → ℕ → Option (List OutboundCommand) → FairMuxQueue × Option OutboundCommand
unfolding settle
pop_session q id none = (q, none)
pop_session q id (some []) = (q, none)
pop_session q id (some (command ∷ queue)) = (settle q id command queue, some command)

unfoldable pub pop_active : FairMuxQueue → List ℕ → FairMuxQueue × Option OutboundCommand
unfolding pop_control pop_session
pop_active q [] = pop_control q q.control_burst q.control
pop_active q (id ∷ rest) = pop_session (record q { active = rest }) id (lookup id q.sessions)

unfoldable pub pop_next : FairMuxQueue → FairMuxQueue × Option OutboundCommand
unfolding pop_control pop_active
pop_next q =
    if not (null q.control) && (ltb q.control_burst max_control_burst || null q.active)
    then pop_control q (q.control_burst + 1) q.control
    else pop_active q q.active

-- `fold(0, |total, command| total.saturating_add(..))`
abbrev pub saturating_bytes : ℕ → List OutboundCommand → ℕ
saturating_bytes total [] = total
saturating_bytes total (command ∷ queue) =
    saturating_bytes (saturating_add total (bytes_of command)) queue

unfoldable pub cancel_session : ℕ → FairMuxQueue → FairMuxQueue
cancel_session id q = record q {
  sessions = remove id q.sessions;
  queued_bytes = elim (lookup id q.sessions) [
    | none ↦ q.queued_bytes
    | some queue ↦ q.queued_bytes - saturating_bytes 0 queue
  ];
  per_session_bytes = remove id q.per_session_bytes;
  active = retain_ne id q.active;
}

-- What a relay asks of the queue.
pub data Op : Type 0 where
  pushes : OutboundCommand → Op
  pops : Op
  cancels : ℕ → Op

unfoldable pub perform : Op → FairMuxQueue → FairMuxQueue
unfolding try_push pop_next cancel_session
perform (pushes command) q = (try_push command q).0
perform pops q = (pop_next q).0
perform (cancels id) q = cancel_session id q

unfoldable pub run : FairMuxQueue → List Op → FairMuxQueue
unfolding perform
run q [] = q
run q (o ∷ os) = run (perform o q) os
