-- ===== src/GatewayProtocol/Binding.antt =====
-- crates/gateway-protocol/src/binding.rs: what `Authenticate` is bound to. SHA-256 is a parameter.
use vpn_ne_vpn.Prelude.{
  ℕ, ◌/◌, ◌%◌, not, if◌then◌else◌, ◌==◌, Result, ok, err, List, [], ◌∷◌, ◌++◌, length,
}
use vpn_ne_vpn.GatewayProtocol.Error.{ProtocolError, invalid_field}
use vpn_ne_vpn.GatewayProtocol.Negotiation.{ProtocolVersion}

-- `b"onionroute-gateway-auth-v1\0"`
abbrev pub auth_binding_domain : List ℕ
auth_binding_domain =
    111 ∷ 110 ∷ 105 ∷ 111 ∷ 110 ∷ 114 ∷ 111 ∷ 117 ∷ 116 ∷ 101 ∷ 45 ∷ 103 ∷ 97 ∷ 116 ∷ 101 ∷ 119 ∷ 97
    ∷ 121 ∷ 45 ∷ 97 ∷ 117 ∷ 116 ∷ 104 ∷ 45 ∷ 118 ∷ 49 ∷ 0 ∷ []

-- `to_be_bytes` of a `u32`
abbrev pub to_be_bytes : ℕ → List ℕ
to_be_bytes n = (n / 16777216) % 256 ∷ (n / 65536) % 256 ∷ (n / 256) % 256 ∷ n % 256 ∷ []

module _ (sha256 : List ℕ → List ℕ) where
  unfoldable pub session_nonce_binding :
      List ℕ → List ℕ → List ℕ → ProtocolVersion → Result ProtocolError (List ℕ)
  session_nonce_binding client_nonce server_nonce ephemeral_session_id selected_version =
      if not (length client_nonce == 32)
      then err (invalid_field "client_nonce")
      else if not (length server_nonce == 32)
      then err (invalid_field "server_nonce")
      else if not (length ephemeral_session_id == 16)
      then err (invalid_field "ephemeral_session_id")
      else if selected_version.major == 0
      then err (invalid_field "selected_version")
      else ok (
          sha256 (
            auth_binding_domain
            ++ client_nonce
            ++ server_nonce
            ++ ephemeral_session_id
            ++ to_be_bytes selected_version.major
            ++ to_be_bytes selected_version.minor))
