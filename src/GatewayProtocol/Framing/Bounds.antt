-- ===== src/GatewayProtocol/Framing/Bounds.antt =====
-- crates/gateway-protocol/src/framing.rs: what a decoder may hold between two calls.
use vpn_ne_vpn.Prelude.{
  ℕ, ◌-◌, ◌≤◌, ◌<◌, ◌≡◌, Bool, false, Option, some, none, List, [], ◌∷◌, length, length-append,
  length-take, take, min, arith, inl, Option-cases, Result-cases, inr,
}
use vpn_ne_vpn.GatewayProtocol.Limits.{absolute_max_frame_size}
use vpn_ne_vpn.GatewayProtocol.Framing.Halves.{push_err, push_ok}
use vpn_ne_vpn.GatewayProtocol.Framing.{
  FrameDecoder, push, push_prefix, push_byte, push_body, announced,
}

-- The body that is awaited: shorter than announced, and none before the length is known.
abbrev pub IsAwaited : ℕ → Option ℕ → List ℕ → Type 0
IsAwaited maximum none body = length body ≡ 0
IsAwaited maximum (some expected) body = (length body < expected) × (expected ≤ maximum)

pub record IsValid (d : FrameDecoder) : Type 0 where
  pub positive : 1 ≤ d.maximum_frame_size
  pub small : d.maximum_frame_size ≤ absolute_max_frame_size
  pub prefix_bounded : length d.prefix ≤ 5
  pub awaited : IsAwaited d.maximum_frame_size d.expected_body d.body

push_byte-IsValid :
    (d : FrameDecoder) (b : ℕ) → IsValid d → announced d ≡ false → IsValid (push_byte d b).0
unfolding push_byte
push_byte-IsValid d b v a = ground (arith, length-append d.prefix (b ∷ []))

pub push_prefix-IsValid :
    (d : FrameDecoder) (input : List ℕ) → IsValid d → IsValid (push_prefix d input).0
unfolding push_prefix
push_prefix-IsValid d [] v = v
push_prefix-IsValid d (b ∷ input) v =
    ground (arith, push_byte-IsValid d b v, push_prefix-IsValid (push_byte d b).0 input)

module _ {Frame : Type 0} (decode_message : List ℕ → Option Frame) (has_body : Frame → Bool) where
  push_body-IsValid :
      (before : ℕ) (d : FrameDecoder) (input : List ℕ)
      → IsValid d
      → IsValid (push_body decode_message has_body before d input).0
  unfolding push_body
  push_body-IsValid before d input v = elim (Option-cases d.expected_body) [
    | inl e ↦ ground arith
    | inr (n, e) ↦
        let count = min (n - length d.body) (length input) in
        ground (arith, v.awaited, length-append d.body (take count input), length-take count input)
  ]

  -- A push keeps the decoder within its bounds, whatever the input and whether it fails or not: at most
  -- five bytes of a prefix, and a body that is shorter than announced and than the frame limit.
  pub push-IsValid :
      (input : List ℕ) (d : FrameDecoder)
      → IsValid d
      → IsValid (push decode_message has_body input d).0
  push-IsValid input d v = elim (Result-cases (push_prefix d input).1) [
    | inl (e, h) ↦ rw (push_err decode_message has_body input d e h) (push_prefix-IsValid d input v)
    | inr (rest, h) ↦ rw (push_ok decode_message has_body input d rest h) (
        push_body-IsValid (length input - length rest) (push_prefix d input).0 rest
          (push_prefix-IsValid d input v))
  ]
