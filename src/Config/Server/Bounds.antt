-- ===== src/Config/Server/Bounds.antt =====
-- What the checks of pkg/server/config.go let pass.
use colnk.Common.{
  ℕ, ◌≤◌, ◌<◌, ◌*◌, ◌^◌, refl, Bytes, [], ◌∷◌, length, all, All, ℤ, pos, negsuc, ◌⊎◌, ◌||◌, nat_beq,
  ◌≡◌, true, false, is_empty, ok, bind, bind-eq-ok, arith, Bool-cases, inl, inr,
}
use colnk.Common.Net.{Net}
use colnk.Common.Paths.{is_abs, clean}
use colnk.Config.Address.{
  validate_address, is_ip, is_alpha_numeric, IsAlphaNumeric, is_alpha_numeric-IsAlphaNumeric,
  IsAddress, validate_address_lem,
}
use colnk.Config.Server.{
  Config, valid_interface_name, is_interface_byte, between, host_of, min_ttl, max_ttl, validate_dns,
  validate_limits, validate_mountpoint, validate_config,
}

-- An integer from `low` to `high`.
abbrev pub IsBetween : ℤ → ℕ → ℕ → Type 0
IsBetween z low high = (n : ℕ) × (z ≡ pos n) × (low ≤ n) × (n ≤ high)

between-IsBetween : (z : ℤ) (low high : ℕ) → between z low high ≡ true → IsBetween z low high
between-IsBetween (pos n) low high h = (n, refl, ground (arith, h), ground (arith, h))
between-IsBetween (negsuc n) low high h = ground (arith, h)

-- 1 to 15 letters, digits, dots, underscores and hyphens.
abbrev pub IsInterfaceByte : ℕ → Type 0
IsInterfaceByte c = IsAlphaNumeric c ⊎ ((c ≡ b'.') ⊎ ((c ≡ b'_') ⊎ (c ≡ b'-')))

abbrev pub IsInterfaceName : Bytes → Type 0
IsInterfaceName name = (0 < length name) × (length name ≤ 15) × All IsInterfaceByte name

interface_byte : (c : ℕ) → is_interface_byte c ≡ true → IsInterfaceByte c
interface_byte c h = elim (Bool-cases (is_alpha_numeric c)) [
  | inl e ↦ inl (is_alpha_numeric-IsAlphaNumeric c e)
  | inr e ↦ inr (other c (ground (arith, h, e)))
]
  where
    other :
        (b : ℕ)
        → (nat_beq b b'.' || (nat_beq b b'_' || nat_beq b b'-')) ≡ true
        → (b ≡ b'.') ⊎ ((b ≡ b'_') ⊎ (b ≡ b'-'))
    other b k = ground (arith, k)

interface_bytes : (s : Bytes) → all is_interface_byte s ≡ true → All IsInterfaceByte s
unfolding all
interface_bytes [] h = tt
interface_bytes (c ∷ s) h = (interface_byte c (ground arith), interface_bytes s (ground arith))

valid_interface_name_lem : (name : Bytes) → valid_interface_name name ≡ true → IsInterfaceName name
unfolding valid_interface_name
valid_interface_name_lem [] h = ground (arith, h)
valid_interface_name_lem (c ∷ s) h =
    (omega arith, ground (arith, h), interface_bytes (c ∷ s) (ground (arith, h)))

module _ {Network : Type 0} (net : Net Network) where
  abbrev pub HasValidDns : Config → Type 0
  HasValidDns config =
      IsAddress net config.dns_address false
      × (is_ip net (host_of config.dns_address) ≡ true)
      × IsAddress net config.upstream_dns false

  abbrev pub IsWithinLimits : Config → Type 0
  IsWithinLimits config =
      IsInterfaceName config.interface_name
      × IsBetween config.proxy_port 1 65535
      × IsBetween config.policy.max_tcp_connections 1 1024
      × IsBetween config.metadata_cache_ttl (100 * 10 ^ 6) (60 * 10 ^ 9)

  validate_dns_lem : (c c' : Config) → validate_dns net c ≡ ok c' → (c' ≡ c) × HasValidDns c
  unfolding validate_dns
  validate_dns_lem c c' h =
      let (_, a, h1) = bind-eq-ok (validate_address net c.dns_address false) _ h in
      elim (Bool-cases (is_ip net (host_of c.dns_address))) [
        | inl i ↦
            let k : bind (validate_address net c.upstream_dns false) (λ _. ok c) ≡ ok c' =
              ground (arith, i, h1) in
            let (_, b, h2) = bind-eq-ok (validate_address net c.upstream_dns false) _ k in
            (cc, (validate_address_lem net _ _ a, i, validate_address_lem net _ _ b))
        | inr i ↦ ground (arith, i, h1)
      ]

  validate_limits_lem :
      (c c' : Config) → validate_limits net c ≡ ok c' → (c' ≡ c) × IsWithinLimits c × HasValidDns c
  unfolding validate_limits
  validate_limits_lem c c' h =
      let d : validate_dns net c ≡ ok c' = ground arith in
      let (e, v) = validate_dns_lem c c' d in
      (
        e,
        (
          valid_interface_name_lem c.interface_name (ground arith),
          between-IsBetween c.proxy_port 1 65535 (ground arith),
          between-IsBetween c.policy.max_tcp_connections 1 1024 (ground arith),
          between-IsBetween c.metadata_cache_ttl min_ttl max_ttl (ground arith),
        ),
        v,
      )

  -- A configuration that validateConfig accepts comes back with its mount point cleaned and nothing else
  -- changed; its key is not empty and its mount point is absolute; its addresses are a host and a port from 1
  -- to 65535, the host empty (where it listens only), an IP address or a host name of labels of 1 to 63
  -- letters, digits and hyphens, and an IP address for the resolver; its interface has 1 to 15 letters,
  -- digits, dots, underscores and hyphens; its proxy port is from 1 to 65535, its limit of connections from 1
  -- to 1024, its time to live from 100 milliseconds to a minute.
  pub validate_config_lem :
      (c c' : Config)
      → validate_config net c ≡ ok c'
      → (c' ≡ record c { mountpoint = clean c.mountpoint })
        × (is_empty c.api_key ≡ false)
        × IsAddress net c.listen true
        × (is_abs c.mountpoint ≡ true)
        × IsWithinLimits c
        × HasValidDns c
  unfolding validate_config validate_mountpoint
  validate_config_lem c c' h =
      let k : bind (validate_address net c.listen true) (λ _. validate_mountpoint net c) ≡ ok c' =
        ground arith in
      let (_, a, h1) = bind-eq-ok (validate_address net c.listen true) _ k in
      let l : validate_limits net (record c { mountpoint = clean c.mountpoint }) ≡ ok c' =
        ground (arith, h1) in
      let (e, w, d) = validate_limits_lem _ c' l in
      (e, ground arith, validate_address_lem net _ _ a, ground (arith, h1), w, d)
