-- ===== src/GatewayProtocol/Framing.antt =====
-- crates/gateway-protocol/src/framing.rs: frames on a byte stream. The protobuf library and the code
-- that it generates are parameters: the type of frames, `GatewayFrame::decode` (`none` is its error),
-- `frame.body.is_some()` and the bytes that `frame.encode` writes, whose number is `encoded_len`.
pub mod Halves
pub mod Bounds
pub mod Chunks
pub mod RoundTrip
mod Tests
use vpn_ne_vpn.Prelude.{
  ℕ, zero, suc, ◌+◌, ◌-◌, Bool, true, false, ◌&&◌, ◌||◌, not, if◌then◌else◌, ltb, leb, ◌==◌,
  u32_max, Result, ok, err, ok_or, and_then, Option, some, none, List, [], ◌∷◌, ◌++◌, length, take,
  drop, null, min,
}
use vpn_ne_vpn.GatewayProtocol.Error.{
  ProtocolError, invalid_field, invalid_length_prefix, empty_frame, frame_too_large, missing_body,
  decode, integer_overflow, io,
}
use vpn_ne_vpn.GatewayProtocol.Limits.{absolute_max_frame_size}
use vpn_ne_vpn.GatewayProtocol.Varint.{
  max_u32_varint_bytes, encode_u32_varint, decode_canonical_u32_varint,
}
use vpn_ne_vpn.GatewayProtocol.Envelope.{scan_gateway_envelope}

unfoldable pub validate_maximum : ℕ → Result ProtocolError (Unit {0})
validate_maximum maximum =
    if maximum == 0 || ltb absolute_max_frame_size maximum
    then err (invalid_field "maximum_frame_size")
    else ok tt

-- The bytes of `prefix` up to `prefix_len`; the rest of the array is never read.
pub record FrameDecoder : Type 0 where
  pub maximum_frame_size : ℕ
  pub prefix : List ℕ
  pub expected_body : Option ℕ
  pub body : List ℕ

pub record DecodeProgress (Frame : Type 0) : Type 0 where
  pub consumed : ℕ
  pub frame : Option Frame

abbrev pub fresh : ℕ → FrameDecoder
fresh maximum = record {
  maximum_frame_size = maximum;
  prefix = [];
  expected_body = none;
  body = [];
}

unfoldable pub new : ℕ → Result ProtocolError FrameDecoder
unfolding validate_maximum
new maximum = and_then (validate_maximum maximum) λ _. ok (fresh maximum)

unfoldable pub set_maximum_frame_size :
    ℕ → FrameDecoder → FrameDecoder × Result ProtocolError (Unit {0})
unfolding validate_maximum
set_maximum_frame_size maximum d = elim (validate_maximum maximum) [
  | err e ↦ (d, err e)
  | ok _ ↦ elim d.expected_body [
    | none ↦ (record d { maximum_frame_size = maximum }, ok tt)
    | some expected ↦
        if ltb maximum expected
        then (d, err (frame_too_large expected maximum))
        else (record d { maximum_frame_size = maximum }, ok tt)
  ]
]

unfoldable pub buffered_bytes : FrameDecoder → ℕ
buffered_bytes d = length d.prefix + length d.body

unfoldable pub reset : FrameDecoder → FrameDecoder
reset d = fresh d.maximum_frame_size

-- A prefix whose last byte has come: the length that it announces.
unfoldable pub finish_prefix : FrameDecoder → FrameDecoder × Result ProtocolError (Unit {0})
unfolding reset
finish_prefix d = elim (decode_canonical_u32_varint d.prefix) [
  | err e ↦ (reset d, err e)
  | ok count ↦
      if count == 0
      then (reset d, err empty_frame)
      else if ltb d.maximum_frame_size count
      then (reset d, err (frame_too_large count d.maximum_frame_size))
      else (record d { body = []; expected_body = some count }, ok tt)
]

-- One round of the `while` loop of `push`, on the byte that it reads.
unfoldable pub push_byte : FrameDecoder → ℕ → FrameDecoder × Result ProtocolError (Unit {0})
unfolding finish_prefix
push_byte d byte =
    if length d.prefix == max_u32_varint_bytes
    then (reset d, err invalid_length_prefix)
    else let d' : FrameDecoder = record d { prefix = d.prefix ++ (byte ∷ []) } in
      if ltb byte 0x80 then finish_prefix d' else (d', ok tt)

abbrev pub announced : FrameDecoder → Bool
announced d = elim d.expected_body [ none ↦ false | some n ↦ true ]

-- The `while` loop: what is left of the input when the length is known or the input is used up.
unfoldable pub push_prefix : FrameDecoder → List ℕ → FrameDecoder × Result ProtocolError (List ℕ)
push_prefix d [] = (d, ok [])
push_prefix d (byte ∷ input) = elim (announced d) [
  | true ↦ (d, ok (byte ∷ input))
  | false ↦ elim (push_byte d byte).1 [
    | err e ↦ ((push_byte d byte).0, err e)
    | ok _ ↦ push_prefix (push_byte d byte).0 input
  ]
]

-- The `loop` of `read_frame` over the bytes of the prefix.
read_prefix : ℕ → List ℕ → List ℕ → Result ProtocolError (List ℕ × List ℕ)
read_prefix zero prefix input = err invalid_length_prefix
read_prefix (suc room) prefix [] = err io
read_prefix (suc room) prefix (byte ∷ input) =
    let more = read_prefix room (prefix ++ (byte ∷ [])) input in
    if ltb byte 0x80 then ok (prefix ++ (byte ∷ []), input) else more

module _ {Frame : Type 0} (decode_message : List ℕ → Option Frame) (has_body : Frame → Bool) where
  unfoldable pub decode_frame_bytes : List ℕ → Result ProtocolError Frame
  decode_frame_bytes bytes =
      if null bytes
      then err empty_frame
      else if ltb absolute_max_frame_size (length bytes)
      then err (frame_too_large (length bytes) absolute_max_frame_size)
      else and_then (scan_gateway_envelope bytes) λ _.
        and_then (ok_or (decode_message bytes) decode)
          λ frame. if has_body frame then ok frame else err missing_body

  -- The second half of `push`: `before` bytes of the input went to the prefix.
  unfoldable pub push_body :
      ℕ → FrameDecoder → List ℕ → FrameDecoder × Result ProtocolError (DecodeProgress Frame)
  unfolding reset
  push_body before d input = elim d.expected_body [
    | none ↦ (d, ok (record { consumed = before; frame = none }))
    | some expected ↦
        let count = min (expected - length d.body) (length input) in
        let d' : FrameDecoder = record d { body = d.body ++ take count input } in
        if length d'.body == expected
        then (
          reset d',
          and_then (decode_frame_bytes d'.body)
              (λ frame. ok (record { consumed = before + count; frame = some frame })),
        )
        else (d', ok (record { consumed = before + count; frame = none }))
  ]

  unfoldable pub push :
      List ℕ → FrameDecoder → FrameDecoder × Result ProtocolError (DecodeProgress Frame)
  push input d = elim (push_prefix d input).1 [
    | err e ↦ ((push_prefix d input).0, err e)
    | ok rest ↦ push_body (length input - length rest) (push_prefix d input).0 rest
  ]

  -- `read_frame` on the bytes that the reader delivers before it ends: the frame and what is left. The
  -- end of the bytes is the error of `read_exact`.
  unfoldable pub read_frame : ℕ → List ℕ → Result ProtocolError (Frame × List ℕ)
  unfolding validate_maximum read_prefix
  read_frame maximum input = and_then (validate_maximum maximum) λ _.
      and_then (read_prefix max_u32_varint_bytes [] input) λ r.
        and_then (decode_canonical_u32_varint r.0) λ count.
          if count == 0
          then err empty_frame
          else if ltb maximum count
          then err (frame_too_large count maximum)
          else if ltb (length r.1) count
          then err io
          else and_then (decode_frame_bytes (take count r.1)) (λ frame. ok (frame, drop count r.1))

module _ {Frame : Type 0} (encode_message : Frame → List ℕ) where
  unfoldable pub encode_frame : Frame → ℕ → Result ProtocolError (List ℕ)
  unfolding validate_maximum
  encode_frame frame maximum = and_then (validate_maximum maximum) λ _.
      let count = length (encode_message frame) in
      if count == 0
      then err empty_frame
      else if ltb maximum count
      then err (frame_too_large count maximum)
      else if ltb u32_max count
      then err integer_overflow
      else ok (encode_u32_varint count ++ encode_message frame)
