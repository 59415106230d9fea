-- ===== src/Config/Server.antt =====
-- pkg/server/config.go: the configuration of the server. The TOML file, time.ParseDuration and the text
-- forms of networks are parameters. Durations are nanoseconds.
pub mod Bounds
use colnk.Common.{
  ℕ, ◌*◌, ◌^◌, ◌≤◌, ◌<◌, Bytes, codes, bytes_beq, List, [], ◌∷◌, Bool, true, false, not, ◌&&◌, ◌||◌,
  ltb, leb, nat_beq, if◌then◌else◌, is_empty, length, all, Option, none, some, Result, ok, err,
  bind, message, ℤ, pos, negsuc, leb_ℤ, ltb_ℤ, is_zero, ◌≡◌, refl, arith,
}
use colnk.Common.Net.{Net, trim_space, split_host_port}
use colnk.Common.Paths.{is_abs, clean}
use colnk.Protocol.Types.{NetworkPolicy, default_network_policy}
use colnk.Config.Address.{validate_address, is_alpha_numeric, is_ip}

pub record Config : Type 0 where
  pub listen : Bytes
  pub api_key : Bytes
  pub mountpoint : Bytes
  pub interface_name : Bytes
  pub dns_address : Bytes
  pub upstream_dns : Bytes
  pub proxy_port : ℤ
  pub configure_resolver : Bool
  pub allow_other : Bool
  pub metadata_cache_ttl : ℤ
  pub policy : NetworkPolicy

-- The structs inside the file's are spelled out in the names of the fields.
pub record FileConfig : Type 0 where
  pub listen : Bytes
  pub mountpoint : Bytes
  pub allow_other : Bool
  pub metadata_cache_ttl : Bytes
  pub auth_api_key : Bytes
  pub network_interface : Bytes
  pub network_proxy_port : ℤ
  pub network_max_tcp_connections : ℤ
  pub dns_listen : Bytes
  pub dns_upstream : Bytes
  pub dns_configure_resolver : Bool

abbrev pub default_file_config : FileConfig
default_file_config = record {
  listen = codes ":7443";
  mountpoint = codes "/mnt/local";
  allow_other = false;
  metadata_cache_ttl = codes "10s";
  auth_api_key = [];
  network_interface = codes "local0";
  network_proxy_port = pos 15001;
  network_max_tcp_connections = pos 256;
  dns_listen = codes "127.0.0.1:53";
  dns_upstream = codes "1.1.1.1:53";
  dns_configure_resolver = true;
}

abbrev pub is_interface_byte : ℕ → Bool
is_interface_byte c = is_alpha_numeric c || (nat_beq c b'.' || (nat_beq c b'_' || nat_beq c b'-'))

unfoldable pub valid_interface_name : Bytes → Bool
unfolding all
valid_interface_name value =
    if is_empty value || ltb 15 (length value) then false else all is_interface_byte value

-- 100 * time.Millisecond
abbrev pub min_ttl : ℕ
min_ttl = 100 * 10 ^ 6

-- time.Minute
abbrev pub max_ttl : ℕ
max_ttl = 60 * 10 ^ 9

abbrev pub between : ℤ → ℕ → ℕ → Bool
between n low high = leb_ℤ (pos low) n && leb_ℤ n (pos high)

-- `dnsHost, _, _ := net.SplitHostPort(…)`
abbrev pub host_of : Bytes → Bytes
unfolding split_host_port
host_of address = elim (split_host_port address) [ none ↦ [] | some (host, _) ↦ host ]

module _ {Network : Type 0} (net : Net Network) where
  -- The checks of the DNS addresses.
  unfoldable pub validate_dns : Config → Result Config
  validate_dns config = bind (validate_address net config.dns_address false) λ _.
      if not (is_ip net (host_of config.dns_address))
      then err (message (codes "dns.listen host must be an IP address"))
      else bind (validate_address net config.upstream_dns false) λ _. ok config

  -- The checks of the interface, the numbers and the time to live.
  unfoldable pub validate_limits : Config → Result Config
  unfolding valid_interface_name validate_dns
  validate_limits config =
      if not (valid_interface_name config.interface_name)
      then err (
          message (
            codes
              "network.interface must contain 1 to 15 letters, digits, dots, underscores, or hyphens"))
      else if not (between config.proxy_port 1 65535)
      then err (message (codes "network.proxyPort must be between 1 and 65535"))
      else if not (between config.policy.max_tcp_connections 1 1024)
      then err (message (codes "network.maxTCPConnections must be between 1 and 1024"))
      else if not (between config.metadata_cache_ttl min_ttl max_ttl)
      then err (message (codes "metadataCacheTTL must be between 100ms and 1m"))
      else validate_dns config

  -- The checks behind those of the key and the address: the configuration that passes has its mount
  -- point cleaned.
  unfoldable pub validate_mountpoint : Config → Result Config
  unfolding validate_limits
  validate_mountpoint config =
      if is_empty config.mountpoint || not (is_abs config.mountpoint)
      then err (message (codes "mountpoint must be an absolute path"))
      else validate_limits (record config { mountpoint = clean config.mountpoint })

  unfoldable pub validate_config : Config → Result Config
  unfolding validate_mountpoint
  validate_config config =
      if is_empty config.api_key
      then err (message (codes "auth.apiKey is required"))
      else bind (validate_address net config.listen true) λ _. validate_mountpoint config

  -- `load` is configfile.Load, which decodes the file over the values that it is given.
  unfoldable pub load_config : (FileConfig → Result FileConfig) → (Bytes → Result ℤ) → Result Config
  load_config load parse_duration = bind (load default_file_config) λ file.
      bind (parse_duration file.metadata_cache_ttl) λ ttl. validate_config (record {
        listen = trim_space file.listen;
        api_key = trim_space file.auth_api_key;
        mountpoint = file.mountpoint;
        interface_name = file.network_interface;
        dns_address = file.dns_listen;
        upstream_dns = file.dns_upstream;
        proxy_port = file.network_proxy_port;
        configure_resolver = file.dns_configure_resolver;
        allow_other = file.allow_other;
        metadata_cache_ttl = ttl;
        policy = record default_network_policy {
          max_tcp_connections = file.network_max_tcp_connections;
        };
      })

unfoldable pub validate_runtime : ℤ → Bytes → Result (Unit {0})
validate_runtime effective_user_id goos =
    if not (bytes_beq goos (codes "linux"))
    then err (message (codes "colnk-server is supported only on Linux"))
    else if not (is_zero effective_user_id)
    then err (message (codes "colnk-server requires root"))
    else ok tt
