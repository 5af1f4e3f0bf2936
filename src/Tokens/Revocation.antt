-- ===== src/Tokens/Revocation.antt =====
-- crates/auth-tokens/src/revocation.rs: the cached snapshot of revocations. The time is that of a
-- clock that is not before 1970.
use vpn_ne_vpn.Prelude.{ℕ, ◌||◌, if◌then◌else◌, List, [], String}
use vpn_ne_vpn.Prelude.Ints.{ℤ, pos, is_less}
use vpn_ne_vpn.Prelude.Maps.{string_eq, nat_eq}
use vpn_ne_vpn.Prelude.Sets.{contains}

pub data RevocationStatus : Type 0 where
  active revoked snapshot_stale : RevocationStatus

-- A token's id is the number of its bytes.
pub record RevocationSnapshot : Type 0 where
  pub valid_until : ℤ
  pub revoked_key_ids : List String
  pub revoked_token_ids : List ℕ

abbrev pub empty : ℤ → RevocationSnapshot
empty valid_until = record {
  valid_until = valid_until;
  revoked_key_ids = [];
  revoked_token_ids = [];
}

unfoldable pub status : RevocationSnapshot → String → ℕ → ℕ → RevocationStatus
status snapshot key_id token_id now =
    if is_less snapshot.valid_until (pos now)
    then snapshot_stale
    else if contains snapshot.revoked_key_ids key_id || contains snapshot.revoked_token_ids token_id
    then revoked
    else active
