-- ===== src/Tokens/Codec.antt =====
-- crates/auth-tokens/src/codec.rs: the encoding of tokens. The protobuf library's encoders and decoders
-- of the two messages are parameters; a decoder's `none` is its error.
pub mod Inverse
pub mod RoundTrip
use vpn_ne_vpn.Prelude.{
  ℕ, zero, suc, ◌^◌, Bool, not, if◌then◌else◌, ltb, ◌==◌, Result, ok, err, ok_or, and_then, Option,
  some, none, List, [], ◌∷◌, length, ◌also◌,
}
use vpn_ne_vpn.Prelude.Ints.{ℤ, pos}
use vpn_ne_vpn.Prelude.Bytes.{same_bytes}
use vpn_ne_vpn.Tokens.Error.{TokenError, input_too_large, invalid_encoding, unsupported_version}
use vpn_ne_vpn.Tokens.Policy.{
  PlanClass, GatewayRole, RegionSet, DeviceSlotClass, BandwidthClass, basic, plus, premium, entry,
  relay, exit, europe, americas, asia_pacific, global, single, personal, family, standard, fast,
  priority, plan_number, role_number, region_number, device_number, bandwidth_number,
}
use vpn_ne_vpn.Tokens.Wire.{SignedTokenEnvelopeV1, CapabilityClaimsV1, ConnectionLimitsV1}
use vpn_ne_vpn.Tokens.Claims.{
  CapabilityClaims, token_version_v1, max_token_bytes, token_id_length, pop_public_key_length,
  signature_length, validate_shape,
}

pub record DecodedToken : Type 0 where
  pub claims : CapabilityClaims
  pub claims_bytes : List ℕ
  pub signature : List ℕ

abbrev pub plan_from_wire : ℤ → Result TokenError PlanClass
plan_from_wire (pos (suc zero)) = ok basic
plan_from_wire (pos (suc (suc zero))) = ok plus
plan_from_wire (pos (suc (suc (suc zero)))) = ok premium
plan_from_wire _ = err invalid_encoding

abbrev pub role_from_wire : ℤ → Result TokenError GatewayRole
role_from_wire (pos (suc zero)) = ok entry
role_from_wire (pos (suc (suc zero))) = ok relay
role_from_wire (pos (suc (suc (suc zero)))) = ok exit
role_from_wire _ = err invalid_encoding

abbrev pub region_from_wire : ℤ → Result TokenError RegionSet
region_from_wire (pos (suc zero)) = ok europe
region_from_wire (pos (suc (suc zero))) = ok americas
region_from_wire (pos (suc (suc (suc zero)))) = ok asia_pacific
region_from_wire (pos (suc (suc (suc (suc zero))))) = ok global
region_from_wire _ = err invalid_encoding

abbrev pub device_from_wire : ℤ → Result TokenError DeviceSlotClass
device_from_wire (pos (suc zero)) = ok single
device_from_wire (pos (suc (suc zero))) = ok personal
device_from_wire (pos (suc (suc (suc zero)))) = ok family
device_from_wire _ = err invalid_encoding

abbrev pub bandwidth_from_wire : ℤ → Result TokenError BandwidthClass
bandwidth_from_wire (pos (suc zero)) = ok standard
bandwidth_from_wire (pos (suc (suc zero))) = ok fast
bandwidth_from_wire (pos (suc (suc (suc zero)))) = ok priority
bandwidth_from_wire _ = err invalid_encoding

abbrev pub roles_to_wire : List GatewayRole → List ℤ
roles_to_wire [] = []
roles_to_wire (role ∷ roles) = pos (role_number role) ∷ roles_to_wire roles

-- `collect` of results stops at the first error.
abbrev pub roles_from_wire : List ℤ → Result TokenError (List GatewayRole)
roles_from_wire [] = ok []
roles_from_wire (value ∷ values) =
    and_then (role_from_wire value)
      λ role. and_then (roles_from_wire values) λ roles. ok (role ∷ roles)

unfoldable pub claims_to_wire : CapabilityClaims → CapabilityClaimsV1
claims_to_wire claims =
    let policy = claims.policy in
    let limits = policy.connection_limits in
    record {
      token_version = claims.token_version;
      token_id = claims.token_id;
      plan_class = pos (plan_number policy.plan_class);
      allowed_gateway_roles = roles_to_wire policy.allowed_gateway_roles;
      region_set = pos (region_number policy.region_set);
      device_slot_class = pos (device_number policy.device_slot_class);
      bandwidth_class = pos (bandwidth_number policy.bandwidth_class);
      connection_limits = some (record {
        max_active_sessions = limits.max_active_sessions;
        max_concurrent_streams = limits.max_concurrent_streams;
        new_connections_per_minute = limits.new_connections_per_minute;
      });
      not_before = claims.not_before;
      expires_at = claims.expires_at;
      issuer_key_id = claims.issuer_key_id;
      proof_of_possession_public_key = claims.proof_of_possession_public_key;
    }

-- `u16::try_from(n)`
abbrev pub to_u16 : ℕ → TokenError → Result TokenError ℕ
to_u16 n e = if ltb n 65536 then ok n else err e

-- `bytes.try_into()` for an array of this length.
abbrev pub to_array : ℕ → List ℕ → Result TokenError (List ℕ)
to_array size xs = if length xs == size then ok xs else err invalid_encoding

abbrev pub pop_from_wire : Option (List ℕ) → Result TokenError (Option (List ℕ))
pop_from_wire none = ok none
pop_from_wire (some key) = and_then (to_array pop_public_key_length key) λ k. ok (some k)

unfoldable pub claims_from_wire : CapabilityClaimsV1 → Result TokenError CapabilityClaims
claims_from_wire c = and_then (to_u16 c.token_version unsupported_version) λ token_version.
    and_then (to_array token_id_length c.token_id) λ token_id.
      and_then (roles_from_wire c.allowed_gateway_roles) λ roles.
        and_then (ok_or c.connection_limits invalid_encoding) λ limits.
          and_then (to_u16 limits.max_active_sessions invalid_encoding) λ max_active_sessions.
            and_then (to_u16 limits.max_concurrent_streams invalid_encoding)
              λ max_concurrent_streams.
                and_then (to_u16 limits.new_connections_per_minute invalid_encoding) λ per_minute.
                  and_then (pop_from_wire c.proof_of_possession_public_key) λ pop_key.
                    and_then (plan_from_wire c.plan_class) λ plan_class.
                      and_then (region_from_wire c.region_set) λ region_set.
                        and_then (device_from_wire c.device_slot_class) λ device_slot_class.
                          and_then (bandwidth_from_wire c.bandwidth_class) λ bandwidth_class.
                            ok (record {
                              token_version = token_version;
                              token_id = token_id;
                              policy = record {
                                plan_class = plan_class;
                                allowed_gateway_roles = roles;
                                region_set = region_set;
                                device_slot_class = device_slot_class;
                                bandwidth_class = bandwidth_class;
                                connection_limits = record {
                                  max_active_sessions = max_active_sessions;
                                  max_concurrent_streams = max_concurrent_streams;
                                  new_connections_per_minute = per_minute;
                                };
                              };
                              not_before = c.not_before;
                              expires_at = c.expires_at;
                              issuer_key_id = c.issuer_key_id;
                              proof_of_possession_public_key = pop_key;
                            })

abbrev pub envelope : List ℕ → List ℕ → SignedTokenEnvelopeV1
envelope claims signature = record {
  token_version = token_version_v1;
  claims = claims;
  signature = signature;
}

module _ (encode_envelope : SignedTokenEnvelopeV1 → List ℕ)
    (decode_envelope : List ℕ → Option SignedTokenEnvelopeV1)
    (encode_claims : CapabilityClaimsV1 → List ℕ)
    (decode_claims : List ℕ → Option CapabilityClaimsV1) where
  unfoldable pub claims_signing_bytes : CapabilityClaims → Result TokenError (List ℕ)
  unfolding validate_shape claims_to_wire
  claims_signing_bytes claims =
      validate_shape claims also ok (encode_claims (claims_to_wire claims))

  unfoldable pub encode_token : CapabilityClaims → List ℕ → Result TokenError (List ℕ)
  unfolding validate_shape claims_to_wire
  encode_token claims signature =
      let encoded = encode_envelope (envelope (encode_claims (claims_to_wire claims)) signature) in
      validate_shape claims
      also (if ltb max_token_bytes (length encoded) then err input_too_large else ok encoded)

  -- The claims of an envelope that was decoded.
  unfoldable pub open_envelope : SignedTokenEnvelopeV1 → Result TokenError DecodedToken
  unfolding validate_shape claims_from_wire
  open_envelope e =
      (if ltb max_token_bytes (length e.claims) then err input_too_large else ok tt)
      also and_then (ok_or (decode_claims e.claims) invalid_encoding) λ wire_claims.
        (if not (same_bytes (encode_claims wire_claims) e.claims)
          then err invalid_encoding
          else ok tt)
        also and_then (claims_from_wire wire_claims) λ claims.
          validate_shape claims
          also and_then (to_array signature_length e.signature) λ signature.
            ok (record { claims = claims; claims_bytes = e.claims; signature = signature })

  unfoldable pub decode_token : List ℕ → Result TokenError DecodedToken
  unfolding open_envelope
  decode_token encoded =
      (if ltb max_token_bytes (length encoded) then err input_too_large else ok tt)
      also and_then (ok_or (decode_envelope encoded) invalid_encoding) λ e.
        (if not (e.token_version == token_version_v1) then err unsupported_version else ok tt)
        also (if not (same_bytes (encode_envelope e) encoded) then err invalid_encoding else ok tt)
        also open_envelope e
