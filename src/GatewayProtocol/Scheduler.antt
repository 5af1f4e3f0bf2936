-- ===== src/GatewayProtocol/Scheduler.antt =====
-- crates/gateway-protocol/src/scheduler.rs: the bounded scheduler of outbound frames. The body of a
-- frame is generated code, so its type is a parameter. `control_burst += 1` is taken to stay in
-- `usize`: it counts frames sent.
pub mod Invariant
pub mod Enqueue
pub mod Dequeue
pub mod Runs
pub mod Drain
pub mod Fairness
mod Tests
use vpn_ne_vpn.Prelude.{
  ℕ, ◌+◌, ◌-◌, Bool, true, false, ◌&&◌, ◌||◌, not, if◌then◌else◌, ltb, leb, ◌==◌, Result, ok, err,
  ok_or, and_then, Option, none, some, List, [], ◌∷◌, ◌++◌, length, null, Method, resume, ◌>>=◌,
  ◌>>◌, return, get, put, lift, fail_if, checked_add, saturating_add, unwrap_or,
}
use vpn_ne_vpn.Prelude.Maps.{Map, lookup, insert, remove, nat_eq}
use vpn_ne_vpn.Prelude.Members.{retain_ne}
use vpn_ne_vpn.GatewayProtocol.Error.{ProtocolError, invalid_field, backpressure, integer_overflow}

abbrev pub max_control_burst : ℕ
max_control_burst = 8

pub record OutboundItem (Body : Type 0) : Type 0 where
  pub body : Body
  pub accounted_bytes : ℕ

pub record FairScheduler (Body : Type 0) : Type 0 where
  pub control : List (OutboundItem Body)
  pub streams : Map ℕ (List (OutboundItem Body))
  pub per_stream_bytes : Map ℕ ℕ
  pub active : List ℕ
  pub queued_bytes : ℕ
  pub maximum_queued_bytes : ℕ
  pub maximum_queued_bytes_per_stream : ℕ
  pub maximum_control_frames : ℕ
  pub control_burst : ℕ

module _ {Body : Type 0} where
  unfoldable pub new : ℕ → ℕ → ℕ → Result ProtocolError (FairScheduler Body)
  new maximum per_stream control_frames =
      if maximum == 0 || per_stream == 0 || ltb maximum per_stream || control_frames == 0
      then err (invalid_field "scheduler_limits")
      else ok (record {
        control = [];
        streams = [];
        per_stream_bytes = [];
        active = [];
        queued_bytes = 0;
        maximum_queued_bytes = maximum;
        maximum_queued_bytes_per_stream = per_stream;
        maximum_control_frames = control_frames;
        control_burst = 0;
      })

  unfoldable pub reserve_global : FairScheduler Body → ℕ → Result ProtocolError (Unit {0})
  reserve_global s bytes =
      and_then (ok_or (checked_add s.queued_bytes bytes) integer_overflow)
        λ updated. if ltb s.maximum_queued_bytes updated then err backpressure else ok tt

  unfoldable pub can_enqueue_control : FairScheduler Body → ℕ → Result ProtocolError (Unit {0})
  unfolding reserve_global
  can_enqueue_control s bytes =
      if leb s.maximum_control_frames (length s.control)
      then err backpressure
      else reserve_global s bytes

  unfoldable pub can_enqueue_stream : FairScheduler Body → ℕ → ℕ → Result ProtocolError (Unit {0})
  unfolding reserve_global
  can_enqueue_stream s id bytes = and_then (reserve_global s bytes) λ _.
      and_then
        (ok_or (checked_add (unwrap_or (lookup id s.per_stream_bytes) 0) bytes) integer_overflow)
        λ updated. if ltb s.maximum_queued_bytes_per_stream updated then err backpressure else ok tt

  unfoldable pub enqueue_control :
      OutboundItem Body → Method (FairScheduler Body) ProtocolError (Unit {0})
  unfolding can_enqueue_control
  enqueue_control item = do
    s ← get
    lift (can_enqueue_control s item.accounted_bytes)
    put (record s {
      queued_bytes = s.queued_bytes + item.accounted_bytes;
      control = s.control ++ (item ∷ []);
    })

  -- The queue is written before the last `checked_add`, as in the code.
  unfoldable pub enqueue_stream :
      ℕ → OutboundItem Body → Method (FairScheduler Body) ProtocolError (Unit {0})
  unfolding can_enqueue_stream
  enqueue_stream id item = do
    s ← get
    lift (can_enqueue_stream s id item.accounted_bytes)
    let updated = unwrap_or (lookup id s.per_stream_bytes) 0 + item.accounted_bytes
    let queue = unwrap_or (lookup id s.streams) []
    put (record s {
      active = if null queue then s.active ++ (id ∷ []) else s.active;
      streams = insert id (queue ++ (item ∷ [])) s.streams;
      per_stream_bytes = insert id updated s.per_stream_bytes;
    })
    t ← get
    total ← lift (ok_or (checked_add t.queued_bytes item.accounted_bytes) integer_overflow)
    put (record t { queued_bytes = total })

  -- The first branch and the last of `pop_next`, on the frames of the control queue.
  unfoldable pub pop_control :
      FairScheduler Body
      → ℕ
      → List (OutboundItem Body)
      → FairScheduler Body × Option (OutboundItem Body)
  pop_control s burst [] = (record s { control_burst = burst }, none)
  pop_control s burst (item ∷ rest) = (
    record s {
      control_burst = burst;
      control = rest;
      queued_bytes = s.queued_bytes - item.accounted_bytes;
    },
    some item,
  )

  -- What is left of a stream when its first frame is taken.
  unfoldable pub settle :
      FairScheduler Body → ℕ → OutboundItem Body → List (OutboundItem Body) → FairScheduler Body
  settle s id item queue =
      let updated = unwrap_or (lookup id s.per_stream_bytes) 0 - item.accounted_bytes in
      let t : FairScheduler Body = record s {
        control_burst = 0;
        queued_bytes = s.queued_bytes - item.accounted_bytes;
      } in
      if null queue
      then record t {
        streams = remove id t.streams;
        per_stream_bytes = remove id t.per_stream_bytes;
      }
      else record t {
        streams = insert id queue t.streams;
        active = t.active ++ (id ∷ []);
        per_stream_bytes = insert id updated t.per_stream_bytes;
      }

  -- The two `?` leave `active` without the id.
  unfoldable pub pop_stream :
      FairScheduler Body
      → ℕ
      → Option (List (OutboundItem Body))
      → FairScheduler Body × Option (OutboundItem Body)
  unfolding settle
  pop_stream s id none = (s, none)
  pop_stream s id (some []) = (s, none)
  pop_stream s id (some (item ∷ queue)) = (settle s id item queue, some item)

  unfoldable pub pop_active :
      FairScheduler Body → List ℕ → FairScheduler Body × Option (OutboundItem Body)
  unfolding pop_control pop_stream
  pop_active s [] = pop_control s s.control_burst s.control
  pop_active s (id ∷ rest) = pop_stream (record s { active = rest }) id (lookup id s.streams)

  unfoldable pub pop_next : FairScheduler Body → FairScheduler Body × Option (OutboundItem Body)
  unfolding pop_control pop_active
  pop_next s =
      if not (null s.control) && (ltb s.control_burst max_control_burst || null s.active)
      then pop_control s (s.control_burst + 1) s.control
      else pop_active s s.active

  -- `fold(0, |sum, item| sum.saturating_add(item.accounted_bytes))`
  abbrev pub saturating_bytes : ℕ → List (OutboundItem Body) → ℕ
  saturating_bytes sum [] = sum
  saturating_bytes sum (item ∷ queue) =
      saturating_bytes (saturating_add sum item.accounted_bytes) queue

  unfoldable pub cancel_stream : ℕ → FairScheduler Body → FairScheduler Body
  cancel_stream id s = record s {
    streams = remove id s.streams;
    queued_bytes = elim (lookup id s.streams) [
      | none ↦ s.queued_bytes
      | some queue ↦ s.queued_bytes - saturating_bytes 0 queue
    ];
    per_stream_bytes = remove id s.per_stream_bytes;
    active = retain_ne id s.active;
  }

-- What a session asks of the scheduler.
pub data Op (Body : Type 0) : Type 0 where
  queues_control : OutboundItem Body → Op Body
  queues_stream : ℕ → OutboundItem Body → Op Body
  pops : Op Body
  cancels : ℕ → Op Body

unfoldable pub perform : {Body : Type 0} → Op Body → FairScheduler Body → FairScheduler Body
unfolding enqueue_control enqueue_stream pop_next cancel_stream
perform (queues_control item) s = (enqueue_control item s).0
perform (queues_stream id item) s = (enqueue_stream id item s).0
perform pops s = (pop_next s).0
perform (cancels id) s = cancel_stream id s

unfoldable pub run : {Body : Type 0} → FairScheduler Body → List (Op Body) → FairScheduler Body
unfolding perform
run s [] = s
run s (o ∷ os) = run (perform o s) os
