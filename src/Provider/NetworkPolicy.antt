-- ===== src/Provider/NetworkPolicy.antt =====
-- pkg/provider/network/policy.go: which targets, addresses and names the client lets the other end reach.
pub mod Allowed
use colnk.Common.{
  ℕ, Bytes, codes, bytes_beq, nat_eq, List, [], ◌∷◌, ◌++◌, map, Option, none, some, Bool, true,
  false, not, ◌&&◌, ◌||◌, if◌then◌else◌, length, ltb, any, Map, lookup, insert, trim_suffix,
  has_suffix, to_lower, Result, ok, err, bind, message, foldl,
}
use colnk.Common.Net.{
  normalize_name, is_in_domain, Ip, v4, v6, is_v4, Net, split_host_port, parse_uint16,
}
use colnk.Protocol.Types.{NetworkPolicy}

-- The struct `NetworkPolicy` of this package.
pub record ParsedPolicy (Network : Type 0) : Type 0 where
  pub networks : List Network
  pub ports : Map ℕ (Unit {0})
  pub suffixes : List Bytes

module _ {Network : Type 0} (net : Net Network) where
  -- The loop over the networks.
  unfoldable pub parse_networks : List Bytes → Result (List Network)
  parse_networks [] = ok []
  parse_networks (value ∷ values) = elim (net.parse_cidr value) [
    | none ↦ err (message (codes "parse allowed cidr"))
    | some (ip, network) ↦
        if is_v4 ip
        then bind (parse_networks values) (λ rest. ok (network ∷ rest))
        else err (message (codes "only IPv4 CIDRs are supported"))
  ]

  unfoldable pub add_ports : List ℕ → Map ℕ (Unit {0})
  unfolding insert
  add_ports ports = foldl (λ m port. insert port tt m) [] ports

  unfoldable pub parse_network_policy : NetworkPolicy → Result (ParsedPolicy Network)
  unfolding parse_networks add_ports normalize_name
  parse_network_policy policy = bind (parse_networks policy.allowed_cidrs) λ networks. ok (record {
    networks = networks;
    ports = add_ports policy.allowed_ports;
    suffixes = map normalize_name policy.dns_suffixes;
  })

  -- A nil address is `none`.
  unfoldable pub allow_ip : ParsedPolicy Network → Option Ip → Bool
  unfolding any
  allow_ip p none = false
  allow_ip p (some ip) =
      if is_v4 ip then any (λ network. net.contains network ip) p.networks else false

  -- `len(p.ports) == 0`, or the port is one of them.
  unfoldable pub allow_port : ParsedPolicy Network → ℕ → Bool
  unfolding lookup
  allow_port p port =
      if ltb 0 (length p.ports)
      then elim (lookup port p.ports) [ none ↦ false | some _ ↦ true ]
      else true

  unfoldable pub allow_tcp : ParsedPolicy Network → Bytes → Bool
  unfolding split_host_port parse_uint16 allow_port allow_ip
  allow_tcp p target = elim (split_host_port target) [
    | none ↦ false
    | some (host, port_text) ↦ elim (parse_uint16 port_text) [
      | none ↦ false
      | some port ↦ if allow_port p port then allow_ip p (net.parse_ip host) else false
    ]
  ]

  unfoldable pub allow_dns : ParsedPolicy Network → Bytes → Bool
  unfolding normalize_name is_in_domain any
  allow_dns p name = any (is_in_domain (normalize_name name)) p.suffixes
