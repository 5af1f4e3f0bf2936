-- ===== src/GatewayProtocol/Framing/Tests.antt =====
-- Framing at concrete bytes. A frame is its own bytes here, and every message has a body.
use vpn_ne_vpn.Prelude.{
  ℕ, ◌≡◌, refl, Bool, true, ok, err, Option, some, none, List, [], ◌∷◌, ◌++◌, and_then, arith,
}
use vpn_ne_vpn.GatewayProtocol.Error.{duplicate_field}
use vpn_ne_vpn.GatewayProtocol.Varint.{encode_u32_varint, decode_canonical_u32_varint}
use vpn_ne_vpn.GatewayProtocol.Envelope.Rounds.{scan_gateway_envelope_ends}
use vpn_ne_vpn.GatewayProtocol.Envelope.{
  scan_fields, scan_gateway_envelope, scan_field, read_wire_varint, note_field, skip_wire_value,
}
use vpn_ne_vpn.GatewayProtocol.Framing.{
  FrameDecoder, fresh, push, push_prefix, push_byte, push_body, decode_frame_bytes, read_frame,
  encode_frame,
}
use vpn_ne_vpn.GatewayProtocol.Framing.Bounds.{IsValid}
use vpn_ne_vpn.GatewayProtocol.Framing.Chunks.{push_chunks, advance}
use vpn_ne_vpn.GatewayProtocol.Framing.RoundTrip.{push-encode}

abbrev decode_any : List ℕ → Option (List ℕ)
decode_any bytes = some bytes

abbrev any_body : List ℕ → Bool
any_body bytes = true

-- Field 2 with one byte, then field 10 (a body) with none.
abbrev message : List ℕ
message = 18 ∷ 1 ∷ 7 ∷ 82 ∷ 0 ∷ []

encode-300 : encode_u32_varint 300 ≡ 172 ∷ 2 ∷ []
unfolding encode_u32_varint
encode-300 = refl

scan-message : scan_gateway_envelope message ≡ ok tt
unfolding scan_gateway_envelope scan_field read_wire_varint note_field skip_wire_value
scan-message = refl

scan-twice : scan_gateway_envelope (18 ∷ 1 ∷ 7 ∷ 18 ∷ 1 ∷ 7 ∷ []) ≡ err (duplicate_field 2)
unfolding scan_gateway_envelope scan_field read_wire_varint note_field skip_wire_value
scan-twice = refl

fresh-IsValid : IsValid (fresh 1024)
fresh-IsValid = omega arith

abbrev half_read : FrameDecoder
half_read = record {
  maximum_frame_size = 1024;
  prefix = 5 ∷ [];
  expected_body = some 5;
  body = 18 ∷ 1 ∷ [];
}

push_chunks_example :
    ((◌≡◌ {A = ℕ} 3 3))
    × (push decode_any any_body (5 ∷ message) (fresh 1024)
        ≡ advance 3 (push decode_any any_body (7 ∷ 82 ∷ 0 ∷ []) half_read))
unfolding push push_prefix push_byte push_body decode_canonical_u32_varint
push_chunks_example =
    push_chunks decode_any any_body (5 ∷ 18 ∷ 1 ∷ []) (7 ∷ 82 ∷ 0 ∷ []) (fresh 1024) half_read 3
      fresh-IsValid refl

push-encode_example :
    let decoded = decode_frame_bytes decode_any any_body message in
    (push decode_any any_body ((5 ∷ message) ++ (9 ∷ [])) (fresh 1024)
      ≡ (fresh 1024, and_then decoded (λ f. ok (record { consumed = 6; frame = some f }))))
    × (read_frame decode_any any_body 1024 ((5 ∷ message) ++ (9 ∷ []))
        ≡ and_then decoded (λ f. ok (f, 9 ∷ [])))
unfolding encode_frame encode_u32_varint
push-encode_example =
    push-encode decode_any any_body (λ m. m) message 1024 (5 ∷ message) (9 ∷ []) refl

scan_gateway_envelope_ends_example :
    scan_fields 9 (record { offset = 0; rest = message }) (record { seen = []; body_tag = none })
    ≡ some (scan_gateway_envelope message)
scan_gateway_envelope_ends_example = scan_gateway_envelope_ends message 9 (omega arith)
