-- ===== src/Config/Client.antt =====
-- pkg/client/config.go: the configuration of the client. The TOML file, the file system and the text
-- forms of networks are parameters.
pub mod Dedupe
use colnk.Common.{
  ℕ, Bytes, codes, List, [], ◌∷◌, ◌++◌, foldl, Bool, true, false, not, ◌&&◌, ◌||◌, ltb, nat_beq,
  if◌then◌else◌, is_empty, length, any, Option, none, some, Result, ok, err, bind, message, ℤ, pos,
  Map, lookup, insert, bytes_eq, nat_eq, Eq, ◌≡◌, refl, is_zero,
}
use colnk.Common.Net.{Net, trim_space}
use colnk.Common.Paths.{is_abs, clean}
use colnk.Protocol.Types.{NetworkPolicy, default_network_policy}
use colnk.Protocol.Validate.{validate_network_policy}
use colnk.Config.Address.{validate_address}

abbrev pub max_shared_cidrs : ℕ
max_shared_cidrs = 256

abbrev pub max_shared_ports : ℕ
max_shared_ports = 256

abbrev pub max_dns_suffixes : ℕ
max_dns_suffixes = 256

pub record Config : Type 0 where
  pub endpoint : Bytes
  pub api_key : Bytes
  pub root : Bytes
  pub audit_resources : Bool
  pub policy : NetworkPolicy

-- The structs inside the file's are spelled out in the names of the fields.
pub record FileConfig : Type 0 where
  pub endpoint : Bytes
  pub root : Bytes
  pub auth_api_key : Bytes
  pub network_allow_cidrs : List Bytes
  pub network_allow_ports : List ℕ
  pub network_dns_suffixes : List Bytes
  pub logging_audit_resources : Bool

-- `seen` and `result`, the variables of the two loops.
abbrev pub Seen : Type 0 → Type 0
Seen A = Map A (Unit {0}) × List A

abbrev pub seen_before : {A : Type 0} ⦃e : Eq A⦄ → A → Map A (Unit {0}) → Bool
seen_before value seen = elim (lookup value seen) [ none ↦ false | some _ ↦ true ]

unfoldable pub dedupe_strings_step : Seen Bytes → Bytes → Seen Bytes
unfolding trim_space
dedupe_strings_step (seen, result) raw =
    let value = trim_space raw in
    if is_empty value || seen_before value seen
    then (seen, result)
    else (insert value tt seen, result ++ value ∷ [])

unfoldable pub dedupe_strings : List Bytes → List Bytes
unfolding dedupe_strings_step
dedupe_strings values = (foldl dedupe_strings_step ([], []) values).1

unfoldable pub dedupe_ports_step : Seen ℕ → ℕ → Seen ℕ
dedupe_ports_step (seen, result) value =
    if seen_before value seen then (seen, result) else (insert value tt seen, result ++ value ∷ [])

unfoldable pub dedupe_ports : List ℕ → List ℕ
unfolding dedupe_ports_step
dedupe_ports values = (foldl dedupe_ports_step ([], []) values).1

abbrev too_many : NetworkPolicy → Bool
too_many policy =
    ltb max_shared_cidrs (length policy.allowed_cidrs)
    || (ltb max_shared_ports (length policy.allowed_ports)
        || ltb max_dns_suffixes (length policy.dns_suffixes))

-- `open_root` is os.OpenRoot with the Close behind it.
module _ {Network : Type 0} (net : Net Network) (open_root : Bytes → Result (Unit {0})) where
  -- The code behind the checks of the endpoint: the configuration with its cleaned root.
  unfoldable pub validate_root : Config → Result Config
  validate_root config =
      if is_empty config.root || not (is_abs config.root)
      then err (message (codes "root must be an absolute path"))
      else let config' = record config { root = clean config.root } in
        bind (open_root config'.root) λ _.
          if too_many config'.policy
          then err (
              message
                (codes "network policy exceeds the maximum of 256 CIDRs, ports, or DNS suffixes"))
          else bind (validate_network_policy net config'.policy) λ _. ok config'

  unfoldable pub validate_config : Config → Result Config
  unfolding validate_root
  validate_config config =
      if is_empty config.endpoint || is_empty config.api_key
      then err (message (codes "endpoint and auth.apiKey are required"))
      else bind (validate_address net config.endpoint false) λ _. validate_root config

  -- `load` is configfile.Load, which decodes the file over the values that it is given.
  unfoldable pub load_config : (FileConfig → Result FileConfig) → Result Config
  unfolding any
  load_config load =
      bind
        (load (record {
          endpoint = [];
          root = codes "/";
          auth_api_key = [];
          network_allow_cidrs = default_network_policy.allowed_cidrs;
          network_allow_ports = [];
          network_dns_suffixes = default_network_policy.dns_suffixes;
          logging_audit_resources = false;
        }))
        λ file.
          if any (λ port. nat_beq port 0) file.network_allow_ports
          then err (message (codes "network.allowPorts must contain ports between 1 and 65535"))
          else validate_config (record {
            endpoint = trim_space file.endpoint;
            api_key = trim_space file.auth_api_key;
            root = file.root;
            audit_resources = file.logging_audit_resources;
            policy = record {
              allowed_cidrs = dedupe_strings file.network_allow_cidrs;
              allowed_ports = dedupe_ports file.network_allow_ports;
              dns_suffixes = dedupe_strings file.network_dns_suffixes;
              max_tcp_connections = pos 0;
            };
          })

unfoldable pub validate_user : ℤ → Result (Unit {0})
validate_user effective_user_id =
    if is_zero effective_user_id
    then err (message (codes "colnk must run as a non-root user"))
    else ok tt
