-- ===== src/GatewayProtocol/Framing/RoundTrip.antt =====
-- crates/gateway-protocol/src/framing.rs: what `encode_frame` writes is what both readers take.
use mathlib.Core.List.{append_assoc, append-nil}
use vpn_ne_vpn.Prelude.{
  ℕ, zero, suc, ◌+◌, ◌-◌, ◌^◌, ◌≤◌, ◌<◌, ◌≡◌, refl, ap, ◌∙◌, Bool, true, false, ok, and_then,
  Option, some, List, [], ◌∷◌, ◌++◌, length, length-append, take, drop, take-append, min, arith,
}
use vpn_ne_vpn.GatewayProtocol.Limits.{absolute_max_frame_size}
use vpn_ne_vpn.GatewayProtocol.Varint.{encode_u32_varint}
use vpn_ne_vpn.GatewayProtocol.Varint.Laws.{Groups, encode-Groups, decode-encode}
use vpn_ne_vpn.GatewayProtocol.Framing.{
  FrameDecoder, fresh, push, push_prefix, push_byte, finish_prefix, push_body, announced,
  decode_frame_bytes, read_frame, read_prefix, encode_frame,
}
use vpn_ne_vpn.GatewayProtocol.Framing.Halves.{push_ok}
use vpn_ne_vpn.GatewayProtocol.Framing.Chunks.{prefix_idle}

-- The bytes of an encoded length bring the decoder to `finish_prefix`.
prefix-Groups :
    (bs input : List ℕ) (d d' : FrameDecoder)
    → announced d ≡ false
    → Groups bs
    → length d.prefix + length bs ≤ 5
    → finish_prefix (record d { prefix = d.prefix ++ bs }) ≡ (d', ok tt)
    → announced d' ≡ true
    → push_prefix d (bs ++ input) ≡ (d', ok input)
unfolding push_prefix push_byte
prefix-Groups [] input d d' a g h f a' = absurd g
prefix-Groups (b ∷ []) input d d' a g h f a' = ground (arith, prefix_idle d' input a')
prefix-Groups (b ∷ c ∷ bs) input d d' a g h f a' = ground (
  arith,
  prefix-Groups (c ∷ bs) input (record d { prefix = d.prefix ++ (b ∷ []) }) d',
  length-append d.prefix (b ∷ []),
  append_assoc d.prefix (b ∷ []) (c ∷ bs),
)

read-Groups :
    (bs input prefix : List ℕ) (room : ℕ)
    → Groups bs
    → length bs ≤ room
    → read_prefix room prefix (bs ++ input) ≡ ok (prefix ++ bs, input)
unfolding read_prefix
read-Groups [] input prefix zero g h = absurd g
read-Groups (b ∷ bs) input prefix zero g h = absurd (omega arith)
read-Groups [] input prefix (suc room) g h = absurd g
read-Groups (b ∷ []) input prefix (suc room) g h = ground arith
read-Groups (b ∷ c ∷ bs) input prefix (suc room) g h = ground (
  arith,
  read-Groups (c ∷ bs) input (prefix ++ (b ∷ [])) room,
  append_assoc prefix (b ∷ []) (c ∷ bs),
)

-- The state in which the length is known.
known : ℕ → ℕ → FrameDecoder
known maximum n = record {
  maximum_frame_size = maximum;
  prefix = encode_u32_varint n;
  expected_body = some n;
  body = [];
}

finish_known :
    (maximum n : ℕ)
    → 1 ≤ n
    → n ≤ maximum
    → n < 2 ^ 32
    → finish_prefix (record (fresh maximum) { prefix = encode_u32_varint n })
      ≡ (known maximum n, ok tt)
unfolding finish_prefix known
finish_known maximum n a b c = ground (arith, decode-encode n c)

taken : (xs ys : List ℕ) → take (length xs) (xs ++ ys) ≡ xs
taken [] ys = refl
taken (x ∷ xs) ys = rw (taken xs ys)

dropped : (xs ys : List ℕ) → drop (length xs) (xs ++ ys) ≡ ys
dropped [] ys = refl
dropped (x ∷ xs) ys = dropped xs ys

module _ {Frame : Type 0} (decode_message : List ℕ → Option Frame) (has_body : Frame → Bool) where
  push_known :
      (maximum before : ℕ) (body rest : List ℕ)
      → 1 ≤ length body
      → push_body decode_message has_body before (known maximum (length body)) (body ++ rest) ≡ (
        fresh maximum,
        and_then
            (decode_frame_bytes decode_message has_body body)
            (λ frame. ok (record { consumed = before + length body; frame = some frame })),
      )
  unfolding push_body known
  push_known maximum before body rest h =
      let k : min (length body - 0) (length (body ++ rest)) ≡ length body + 0 =
        omega (arith, length-append body rest) in
      let b : take (length body + 0) (body ++ rest) ≡ body =
        take-append 0 body rest ∙ append-nil body in
      rw (k, b) (ground arith)

  encoded :
      (encode_message : Frame → List ℕ) (frame : Frame) (maximum : ℕ) (bytes : List ℕ)
      → encode_frame encode_message frame maximum ≡ ok bytes
      → let n = length (encode_message frame) in
        (bytes ≡ encode_u32_varint n ++ encode_message frame)
        × (1 ≤ n)
        × (n ≤ maximum)
        × (n < 2 ^ 32)
        × (1 ≤ maximum)
        × (maximum ≤ absolute_max_frame_size)
  unfolding encode_frame
  encoded encode_message frame maximum bytes h = ground arith

  -- The bytes of a body behind its length.
  push_framed :
      (maximum : ℕ) (body rest : List ℕ)
      → 1 ≤ length body
      → length body ≤ maximum
      → length body < 2 ^ 32
      → push decode_message has_body
          ((encode_u32_varint (length body) ++ body) ++ rest)
          (fresh maximum)
        ≡ (
          fresh maximum,
          and_then (decode_frame_bytes decode_message has_body body) (λ frame. ok (record {
            consumed = length (encode_u32_varint (length body) ++ body);
            frame = some frame;
          })),
        )
  push_framed maximum body rest a b c =
      let n = length body in
      let (g, five) = encode-Groups n c in
      let p : push_prefix (fresh maximum) (encode_u32_varint n ++ (body ++ rest))
          ≡ (known maximum n, ok (body ++ rest)) =
        prefix-Groups (encode_u32_varint n) (body ++ rest) (fresh maximum) (known maximum n) refl g
          (omega (arith, five)) (finish_known maximum n a b c) (unfold known in refl) in
      let count : length (encode_u32_varint n ++ (body ++ rest)) - length (body ++ rest)
          ≡ length (encode_u32_varint n) =
        omega (arith, length-append (encode_u32_varint n) (body ++ rest)) in
      rw
        (
          append_assoc (encode_u32_varint n) body rest,
          push_ok decode_message has_body (encode_u32_varint n ++ (body ++ rest)) (fresh maximum)
              (body ++ rest) (ap (λ r. r.1) p),
          p,
          count,
          length-append (encode_u32_varint n) body,
        )
        (push_known maximum (length (encode_u32_varint n)) body rest a)

  read_framed :
      (maximum : ℕ) (body rest : List ℕ)
      → 1 ≤ length body
      → length body ≤ maximum
      → length body < 2 ^ 32
      → maximum ≤ absolute_max_frame_size
      → read_frame decode_message has_body maximum
          ((encode_u32_varint (length body) ++ body) ++ rest)
        ≡ and_then (decode_frame_bytes decode_message has_body body) (λ f. ok (f, rest))
  unfolding read_frame
  read_framed maximum body rest a b c d =
      let n = length body in
      let (g, five) = encode-Groups n c in
      let r = read-Groups (encode_u32_varint n) (body ++ rest) [] 5 g five in
      let t : take n (body ++ rest) ≡ body = taken body rest in
      let u : drop n (body ++ rest) ≡ rest = dropped body rest in
      rw (append_assoc (encode_u32_varint n) body rest)
        (ground (arith, r, t, u, decode-encode n c, length-append body rest))

  -- A frame that `encode_frame` accepts comes back from what it writes, whatever follows on the stream:
  -- a fresh decoder with the same limit takes exactly those bytes, hands exactly the encoded message to
  -- `decode_frame_bytes`, and is fresh again; and `read_frame` does the same and leaves what follows.
  pub push-encode :
      (encode_message : Frame → List ℕ) (frame : Frame) (maximum : ℕ) (bytes rest : List ℕ)
      → encode_frame encode_message frame maximum ≡ ok bytes
      → let decoded = decode_frame_bytes decode_message has_body (encode_message frame) in
        (push decode_message has_body (bytes ++ rest) (fresh maximum) ≡ (
          fresh maximum,
          and_then decoded (λ f. ok (record { consumed = length bytes; frame = some f })),
        ))
        × (read_frame decode_message has_body maximum (bytes ++ rest)
            ≡ and_then decoded (λ f. ok (f, rest)))
  push-encode encode_message frame maximum bytes rest h =
      let (e, a, b, c, e1, e2) = encoded encode_message frame maximum bytes h in
      rw e (
        push_framed maximum (encode_message frame) rest a b c,
        read_framed maximum (encode_message frame) rest a b c e2,
      )
