-- ===== src/Common/Net.antt =====
-- What the program uses of Go's packages net, strconv and strings on addresses. The text forms of IP
-- addresses and networks are a parameter: `Net` is what net.ParseIP, net.ParseCIDR and IPNet.Contains
-- compute. An address that `To4` accepts is `v4`.
use Prim.Native.Nat.{ℕ, ◌+◌, ◌-◌, ◌*◌, ◌^◌, ◌<◌}
use mathlib.Core.Path.{◌≡◌, refl}
use mathlib.Core.Bool.{Bool, true, false, ◌&&◌, ◌||◌}
use mathlib.Core.List.{[], ◌∷◌, ◌++◌, reverse}
use mathlib.Core.Option.{Option, none, some}
use native.Mathlib.Omega.{arith}
use colnk.Common.Tests.{nat_beq, leb, ltb, if◌then◌else◌}
use colnk.Common.Lists.{any}
use colnk.Common.Texts.{Bytes, codes, bytes_beq, trim_suffix, has_suffix, to_lower}

pub data Ip : Type 0 where
  v4 : ℕ → Ip
  v6 : ℕ → Ip

abbrev pub is_v4 : Ip → Bool
is_v4 (v4 a) = true
is_v4 (v6 a) = false

pub record Net (Network : Type 0) : Type 0 where
  pub parse_ip : Bytes → Option Ip
  pub parse_cidr : Bytes → Option (Ip × Network)
  pub contains : Network → Ip → Bool

-- The text before and after the last occurrence of a byte.
unfoldable pub split_last_byte : ℕ → Bytes → Option (Bytes × Bytes)
split_last_byte b [] = none
split_last_byte b (c ∷ s) = elim (split_last_byte b s) [
  | some (before, after) ↦ some (c ∷ before, after)
  | none ↦ if nat_beq c b then some ([], s) else none
]

-- The text in front of a byte that stands at the end and nowhere else.
unfoldable pub ends_at : ℕ → Bytes → Option Bytes
ends_at b [] = none
ends_at b (c ∷ []) = if nat_beq c b then some [] else none
ends_at b (c ∷ d ∷ s) = elim (ends_at b (d ∷ s)) [
  | none ↦ none
  | some t ↦ if nat_beq c b then none else some (c ∷ t)
]

abbrev pub has_byte : ℕ → Bytes → Bool
has_byte b = any (λ c. nat_beq c b)

-- `[host]:port`, on what stands behind the bracket and in front of the last colon.
unfoldable pub bracketed : Bytes → Bytes → Option (Bytes × Bytes)
unfolding ends_at any
bracketed inner port = elim (ends_at b']' inner) [
  | none ↦ none
  | some host ↦
      if has_byte b'[' (inner ++ port) || has_byte b']' port then none else some (host, port)
]

-- `host:port`
unfoldable pub unbracketed : Bytes → Bytes → Option (Bytes × Bytes)
unfolding any
unbracketed host port =
    if has_byte b':' host || has_byte b'[' (host ++ port) || has_byte b']' (host ++ port)
    then none
    else some (host, port)

unfoldable pub split_parts : Bytes → Bytes → Option (Bytes × Bytes)
unfolding bracketed unbracketed
split_parts [] port = unbracketed [] port
split_parts (c ∷ s) port = if nat_beq c b'[' then bracketed s port else unbracketed (c ∷ s) port

-- net.SplitHostPort
unfoldable pub split_host_port : Bytes → Option (Bytes × Bytes)
unfolding split_last_byte split_parts
split_host_port hostport = elim (split_last_byte b':' hostport) [
  | none ↦ none
  | some (before, port) ↦ split_parts before port
]

abbrev pub is_digit : ℕ → Bool
is_digit c = leb b'0' c && leb c b'9'

unfoldable pub digits_value : ℕ → Bytes → Option ℕ
digits_value n [] = some n
digits_value n (c ∷ s) =
    let rest = digits_value (10 * n + (c - b'0')) s in if is_digit c then rest else none

-- `value < 2 ^ 16`, as ParseUint(…, 10, 16) demands.
abbrev pub below_16_bits : Option ℕ → Option ℕ
below_16_bits none = none
below_16_bits (some n) = if ltb n (2 ^ 16) then some n else none

-- strconv.ParseUint(text, 10, 16)
unfoldable pub parse_uint16 : Bytes → Option ℕ
unfolding digits_value
parse_uint16 [] = none
parse_uint16 (c ∷ s) = below_16_bits (digits_value 0 (c ∷ s))

abbrev pub is_space : ℕ → Bool
is_space c = nat_beq c b' ' || leb 9 c && leb c 13

unfoldable pub trim_start : Bytes → Bytes
trim_start [] = []
trim_start (c ∷ s) = if is_space c then trim_start s else c ∷ s

-- strings.TrimSpace on ASCII.
unfoldable pub trim_space : Bytes → Bytes
unfolding trim_start
trim_space s = reverse (trim_start (reverse (trim_start s)))

-- `strings.TrimSuffix(strings.ToLower(name), ".")`
unfoldable pub normalize_name : Bytes → Bytes
unfolding to_lower trim_suffix
normalize_name name = trim_suffix (to_lower name) (codes ".")

-- `name == suffix || strings.HasSuffix(name, "."+suffix)`
unfoldable pub is_in_domain : Bytes → Bytes → Bool
unfolding has_suffix
is_in_domain name suffix = bytes_beq name suffix || has_suffix name (codes "." ++ suffix)

net_tests :
    (split_host_port (codes "[::1]:80") ≡ some (codes "::1", codes "80"))
    × (split_host_port (codes "a.b:7443") ≡ some (codes "a.b", codes "7443"))
    × (split_host_port (codes "::1:80") ≡ none)
    × (split_host_port (codes ":80") ≡ some ([], codes "80"))
    × (parse_uint16 (codes "65535") ≡ some 65535)
    × (parse_uint16 (codes "65536") ≡ none)
    × (trim_space (codes " a b\t") ≡ codes "a b")
unfolding split_host_port parse_uint16 trim_space
net_tests = (refl, refl, refl, refl, refl, refl, refl)

pub parse_uint16-lt : (s : Bytes) (n : ℕ) → parse_uint16 s ≡ some n → n < 2 ^ 16
unfolding parse_uint16
parse_uint16-lt [] n h = ground arith
parse_uint16-lt (c ∷ s) n h = ground arith
