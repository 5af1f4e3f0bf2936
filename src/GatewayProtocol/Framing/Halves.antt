-- ===== src/GatewayProtocol/Framing/Halves.antt =====
-- crates/gateway-protocol/src/framing.rs: the two halves of `push`, for proofs that keep them shut.
use vpn_ne_vpn.Prelude.{
  ℕ, ◌+◌, ◌-◌, ◌<◌, ◌≡◌, Bool, ok, err, Option, some, none, List, length, ◌++◌, min, arith,
  take_all, length-append,
}
use vpn_ne_vpn.GatewayProtocol.Error.{ProtocolError}
use vpn_ne_vpn.GatewayProtocol.Framing.{FrameDecoder, push, push_prefix, push_body}

module _ {Frame : Type 0} (decode_message : List ℕ → Option Frame) (has_body : Frame → Bool)
    (input : List ℕ) (d : FrameDecoder) where
  pub push_err :
      (e : ProtocolError)
      → (push_prefix d input).1 ≡ err e
      → push decode_message has_body input d ≡ ((push_prefix d input).0, err e)
  unfolding push
  push_err e h = rw (h, push)

  pub push_ok :
      (rest : List ℕ)
      → (push_prefix d input).1 ≡ ok rest
      → push decode_message has_body input d
        ≡ push_body decode_message has_body
            (length input - length rest)
            (push_prefix d input).0
            rest
  unfolding push
  push_ok rest h = rw (h, push)

  -- The body is not complete with this chunk.
  pub push_body_more :
      (before n : ℕ)
      → d.expected_body ≡ some n
      → length d.body + length input < n
      → push_body decode_message has_body before d input ≡ (
        record d { body = d.body ++ input },
        ok (record { consumed = before + length input; frame = none }),
      )
  unfolding push_body
  push_body_more before n e h =
      ground
        (arith, take_all input (min (n - length d.body) (length input)), length-append d.body input)
