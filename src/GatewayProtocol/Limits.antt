-- ===== src/GatewayProtocol/Limits.antt =====
-- crates/gateway-protocol/src/limits.rs: the hard limits, and the check of configured ones.
use vpn_ne_vpn.Prelude.{
  ℕ, ◌*◌, ◌≤◌, ◌≡◌, ◌&&◌, ◌||◌, not, if◌then◌else◌, ltb, leb, ◌==◌, Result, ok, err, arith, ◌↔◌,
}
use vpn_ne_vpn.GatewayProtocol.Error.{ProtocolError, invalid_field}

abbrev pub absolute_max_frame_size : ℕ
absolute_max_frame_size = 64 * 1024

abbrev pub min_negotiable_frame_size : ℕ
min_negotiable_frame_size = 1024

abbrev pub max_concurrent_streams : ℕ
max_concurrent_streams = 4096

abbrev pub max_stream_window : ℕ
max_stream_window = 4 * 1024 * 1024

abbrev pub max_connection_window : ℕ
max_connection_window = 16 * 1024 * 1024

-- Durations are in milliseconds.
pub record ProtocolLimits : Type 0 where
  pub maximum_frame_size : ℕ
  pub maximum_concurrent_streams : ℕ
  pub initial_connection_window : ℕ
  pub initial_stream_window : ℕ
  pub maximum_queued_bytes : ℕ
  pub maximum_queued_bytes_per_stream : ℕ
  pub maximum_control_frames : ℕ
  pub maximum_outstanding_resolves : ℕ
  pub handshake_timeout : ℕ
  pub idle_stream_timeout : ℕ

abbrev pub default : ProtocolLimits
default = record {
  maximum_frame_size = absolute_max_frame_size;
  maximum_concurrent_streams = 512;
  initial_connection_window = 4 * 1024 * 1024;
  initial_stream_window = 256 * 1024;
  maximum_queued_bytes = 8 * 1024 * 1024;
  maximum_queued_bytes_per_stream = 256 * 1024;
  maximum_control_frames = 256;
  maximum_outstanding_resolves = 128;
  handshake_timeout = 30000;
  idle_stream_timeout = 120000;
}

-- The tests in the order of the code; each failure names its field.
unfoldable pub validate : ProtocolLimits → Result ProtocolError (Unit {0})
validate l =
    if not (
      leb min_negotiable_frame_size l.maximum_frame_size
      && leb l.maximum_frame_size absolute_max_frame_size)
    then err (invalid_field "maximum_frame_size")
    else if not (
        leb 1 l.maximum_concurrent_streams
        && leb l.maximum_concurrent_streams max_concurrent_streams)
    then err (invalid_field "maximum_concurrent_streams")
    else if l.initial_connection_window == 0
        || ltb max_connection_window l.initial_connection_window
    then err (invalid_field "initial_connection_window")
    else if l.initial_stream_window == 0 || ltb max_stream_window l.initial_stream_window
    then err (invalid_field "initial_stream_window")
    else if l.maximum_queued_bytes == 0
        || l.maximum_queued_bytes_per_stream == 0
        || ltb l.maximum_queued_bytes l.maximum_queued_bytes_per_stream
        || l.maximum_control_frames == 0
        || l.maximum_outstanding_resolves == 0
    then err (invalid_field "queue_limits")
    else if l.handshake_timeout == 0 || l.idle_stream_timeout == 0
    then err (invalid_field "timeouts")
    else ok tt

-- `validate` accepts a configuration exactly if every limit is in its range: the frame size and the
-- number of streams within both bounds, the windows and the queues positive and bounded, and the
-- timeouts positive.
pub validate_iff :
    (l : ProtocolLimits)
    → (validate l ≡ ok tt) ↔ (
        (min_negotiable_frame_size ≤ l.maximum_frame_size)
        × (l.maximum_frame_size ≤ absolute_max_frame_size)
        × (1 ≤ l.maximum_concurrent_streams)
        × (l.maximum_concurrent_streams ≤ max_concurrent_streams)
        × (1 ≤ l.initial_connection_window)
        × (l.initial_connection_window ≤ max_connection_window)
        × (1 ≤ l.initial_stream_window)
        × (l.initial_stream_window ≤ max_stream_window)
        × (1 ≤ l.maximum_queued_bytes_per_stream)
        × (l.maximum_queued_bytes_per_stream ≤ l.maximum_queued_bytes)
        × (1 ≤ l.maximum_control_frames)
        × (1 ≤ l.maximum_outstanding_resolves)
        × (1 ≤ l.handshake_timeout)
        × (1 ≤ l.idle_stream_timeout))
unfolding validate
validate_iff l = (λ h. ground arith, λ h. ground arith)
