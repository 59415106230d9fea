-- ===== src/Protocol/Validate.antt =====
-- pkg/protocol/handshake.go: what either end accepts of a handshake and of a network policy.
use colnk.Common.{
  Bytes, codes, List, [], ◌∷◌, none, some, Bool, false, not, ◌||◌, ltb, nat_beq, if◌then◌else◌,
  is_empty, length, any, trim_suffix, ℤ, pos, negsuc, ltb_ℤ, Result, ok, err, bind,
  api_key_required, invalid_cidr, invalid_suffix, unsupported_major, invalid_minor,
}
use colnk.Common.Net.{is_v4, Net, has_byte, trim_space}
use colnk.Protocol.Types.{NetworkPolicy, Handshake, major_version}

module _ {Network : Type 0} (net : Net Network) where
  -- `err != nil || ip.To4() == nil`, negated.
  abbrev pub is_ipv4_cidr : Bytes → Bool
  is_ipv4_cidr value = elim (net.parse_cidr value) [ none ↦ false | some (ip, _) ↦ is_v4 ip ]

  unfoldable pub validate_cidrs : List Bytes → Result (Unit {0})
  validate_cidrs [] = ok tt
  validate_cidrs (value ∷ values) =
      if is_ipv4_cidr value then validate_cidrs values else err invalid_cidr

-- `strings.TrimSuffix(strings.TrimSpace(suffix), ".")`
unfoldable pub normalize_suffix : Bytes → Bytes
unfolding trim_space trim_suffix
normalize_suffix suffix = trim_suffix (trim_space suffix) (codes ".")

unfoldable pub is_valid_suffix : Bytes → Bool
unfolding any
is_valid_suffix normalized = not (
    is_empty normalized
    || ltb 253 (length normalized)
    || (has_byte b' ' normalized || has_byte b'/' normalized || has_byte b':' normalized))

unfoldable pub validate_suffixes : List Bytes → Result (Unit {0})
unfolding normalize_suffix is_valid_suffix
validate_suffixes [] = ok tt
validate_suffixes (suffix ∷ suffixes) =
    if is_valid_suffix (normalize_suffix suffix)
    then validate_suffixes suffixes
    else err invalid_suffix

abbrev pub is_major : ℤ → Bool
is_major (pos n) = nat_beq n major_version
is_major (negsuc n) = false

module _ {Network : Type 0} (net : Net Network) where
  unfoldable pub validate_network_policy : NetworkPolicy → Result (Unit {0})
  unfolding validate_cidrs validate_suffixes
  validate_network_policy policy =
      bind (validate_cidrs net policy.allowed_cidrs) (λ _. validate_suffixes policy.dns_suffixes)

  unfoldable pub validate_handshake : Handshake → Result (Unit {0})
  validate_handshake handshake =
      if not (is_major handshake.major_version)
      then err (unsupported_major handshake.major_version)
      else if ltb_ℤ handshake.minor_version (pos 0)
      then err (invalid_minor handshake.minor_version)
      else if is_empty handshake.api_key
      then err api_key_required
      else validate_network_policy handshake.policy
