-- ===== src/Provider/NetworkPolicy/Allowed.antt =====
-- What a parsed policy lets through (pkg/provider/network/policy.go), against the policy as written.
use colnk.Common.{
  ap, ◌∙◌, if◌then◌else◌, ℕ, ◌≡◌, refl, Bytes, nat_eq, nat_beq, List, [], ◌∷◌, map, foldl, Option,
  none, some, Bool, true, false, not, ◌&&◌, ◌||◌, length, ltb, any, Map, lookup, insert,
  lookup-insert, ok, bind, arith, Option-cases, inl, inr, bind-eq-ok,
}
use colnk.Common.Net.{normalize_name, is_in_domain, Ip, is_v4, Net, split_host_port, parse_uint16}
use colnk.Protocol.Types.{NetworkPolicy}
use colnk.Protocol.Validate.{validate_cidrs, validate_suffixes, validate_network_policy}
use colnk.Provider.NetworkPolicy.{
  ParsedPolicy, parse_networks, add_ports, parse_network_policy, allow_ip, allow_port, allow_tcp,
  allow_dns,
}

abbrev has_port : ℕ → Map ℕ (Unit {0}) → Bool
has_port port m = elim (lookup port m) [ none ↦ false | some _ ↦ true ]

has_port-insert :
    (port p : ℕ) (m : Map ℕ (Unit {0}))
    → has_port port (insert p tt m) ≡ nat_beq p port || has_port port m
has_port-insert port p m = ground (arith, lookup-insert p port tt m)

add_ports_loop :
    (port : ℕ) (ports : List ℕ) (m : Map ℕ (Unit {0}))
    → has_port port (foldl (λ m p. insert p tt m) m ports)
      ≡ has_port port m || any (λ p. nat_beq p port) ports
unfolding any
add_ports_loop port [] m = ground arith
add_ports_loop port (p ∷ ports) m =
    ground (arith, add_ports_loop port ports (insert p tt m), has_port-insert port p m)

abbrev is_nil : List ℕ → Bool
is_nil [] = true
is_nil (p ∷ ps) = false

ports_stay :
    (ports : List ℕ) (m : Map ℕ (Unit {0}))
    → ltb 0 (length m) ≡ true
    → ltb 0 (length (foldl (λ m p. insert p tt m) m ports)) ≡ true
unfolding insert
ports_stay [] m h = h
ports_stay (p ∷ ports) [] h = ports_stay ports (insert p tt []) refl
ports_stay (p ∷ ports) (e ∷ m) h = ports_stay ports (insert p tt (e ∷ m)) (ground arith)

module _ {Network : Type 0} (net : Net Network) where
  has_ports-add_ports : (ports : List ℕ) → ltb 0 (length (add_ports net ports)) ≡ not (is_nil ports)
  unfolding add_ports insert
  has_ports-add_ports [] = refl
  has_ports-add_ports (p ∷ ports) = ports_stay ports (insert p tt []) refl

  has_port-add_ports :
      (port : ℕ) (ports : List ℕ)
      → has_port port (add_ports net ports) ≡ any (λ p. nat_beq p port) ports
  unfolding add_ports lookup any
  has_port-add_ports port ports = add_ports_loop port ports []

  -- An address in a network that is written as an IPv4 network.
  abbrev in_cidr : Ip → Bytes → Bool
  in_cidr ip value = elim (net.parse_cidr value) [
    | none ↦ false
    | some (_, network) ↦ net.contains network ip
  ]

  unfoldable pub in_cidrs : Ip → List Bytes → Bool
  unfolding any
  in_cidrs ip values = any (in_cidr ip) values

  unfoldable pub in_networks : Ip → List Network → Bool
  unfolding any
  in_networks ip networks = any (λ network. net.contains network ip) networks

  in_networks-parse_networks :
      (ip : Ip) (values : List Bytes) (networks : List Network)
      → parse_networks net values ≡ ok networks
      → in_networks ip networks ≡ in_cidrs ip values
  unfolding parse_networks in_networks in_cidrs any
  in_networks-parse_networks ip [] networks h = ground arith
  in_networks-parse_networks ip (value ∷ values) networks h =
      elim (Option-cases (net.parse_cidr value)) [
        | inl e ↦ ground (arith, e)
        | inr ((a, network), e) ↦
            let k : bind (parse_networks net values) (λ rest. ok (network ∷ rest)) ≡ ok networks =
              ground (arith, e) in
            let (rest, r, q) = bind-eq-ok (parse_networks net values) _ k in
            ground (arith, e, q, in_networks-parse_networks ip values rest r)
      ]

  parse_networks_total :
      (values : List Bytes)
      → validate_cidrs net values ≡ ok tt
      → (networks : List Network) × (parse_networks net values ≡ ok networks)
  unfolding parse_networks validate_cidrs
  parse_networks_total [] h = ([], refl)
  parse_networks_total (value ∷ values) h = elim (Option-cases (net.parse_cidr value)) [
    | inl e ↦ ground (arith, e)
    | inr ((a, network), e) ↦
        let (rest, r) = parse_networks_total values (ground (arith, e)) in
        (network ∷ rest, ground (arith, e, r))
  ]

  -- The policy as written: no ports stand for all ports.
  unfoldable pub allows_port : NetworkPolicy → ℕ → Bool
  unfolding any
  allows_port policy port =
      is_nil policy.allowed_ports || any (λ p. nat_beq p port) policy.allowed_ports

  abbrev pub allows_ip : NetworkPolicy → Option Ip → Bool
  allows_ip policy none = false
  allows_ip policy (some ip) = is_v4 ip && in_cidrs ip policy.allowed_cidrs

  unfoldable pub allows_tcp : NetworkPolicy → Bytes → Bool
  unfolding split_host_port parse_uint16 allows_port
  allows_tcp policy target = elim (split_host_port target) [
    | none ↦ false
    | some (host, port_text) ↦ elim (parse_uint16 port_text) [
      | none ↦ false
      | some port ↦ allows_port policy port && allows_ip policy (net.parse_ip host)
    ]
  ]

  module _ (policy : NetworkPolicy) (p : ParsedPolicy Network)
      (h : parse_network_policy net policy ≡ ok p) where
    parsed :
        (parse_networks net policy.allowed_cidrs ≡ ok p.networks)
        × (p.ports ≡ add_ports net policy.allowed_ports)
        × (p.suffixes ≡ map normalize_name policy.dns_suffixes)
    unfolding parse_network_policy
    parsed =
        let (networks, r, q) = bind-eq-ok (parse_networks net policy.allowed_cidrs) _ h in
        (ground (arith, q, r), ground (arith, q), ground (arith, q))

    allow_port-eq : (port : ℕ) → allow_port net p port ≡ allows_port policy port
    unfolding allow_port allows_port
    allow_port-eq port =
        ap (λ m. if ltb 0 (length m) then has_port port m else true) (parsed.1)
        ∙ ground (
          arith,
          has_ports-add_ports policy.allowed_ports,
          has_port-add_ports port policy.allowed_ports,
        )

    allow_ip-eq : (ip : Option Ip) → allow_ip net p ip ≡ allows_ip policy ip
    unfolding allow_ip in_networks
    allow_ip-eq none = refl
    allow_ip-eq (some ip) =
        ground (arith, in_networks-parse_networks ip policy.allowed_cidrs p.networks parsed.0)

    -- A parsed policy allows a target exactly when the target is an IPv4 address and a port in 16 bits
    -- such that a network of the policy contains the address and the policy lists the port or lists none.
    pub allow_tcp-eq : (target : Bytes) → allow_tcp net p target ≡ allows_tcp policy target
    unfolding allow_tcp allows_tcp
    allow_tcp-eq target = elim (Option-cases (split_host_port target)) [
      | inl e ↦ ground (arith, e)
      | inr ((host, port_text), e) ↦ elim (Option-cases (parse_uint16 port_text)) [
        | inl q ↦ ground (arith, e, q)
        | inr (port, q) ↦ ground (arith, e, q, allow_port-eq port, allow_ip-eq (net.parse_ip host))
      ]
    ]

    -- A parsed policy allows a name exactly when a suffix of the policy, in lower case and without a dot
    -- at its end, is the name or a domain above it.
    pub allow_dns-eq :
        (name : Bytes)
        → allow_dns net p name
          ≡ any (is_in_domain (normalize_name name)) (map normalize_name policy.dns_suffixes)
    unfolding allow_dns
    allow_dns-eq name = ground (arith, parsed)

  -- What ValidateNetworkPolicy accepts, ParseNetworkPolicy parses.
  pub parse_network_policy-validated :
      (policy : NetworkPolicy)
      → validate_network_policy net policy ≡ ok tt
      → (p : ParsedPolicy Network) × (parse_network_policy net policy ≡ ok p)
  unfolding parse_network_policy validate_network_policy
  parse_network_policy-validated policy h =
      let (_, c, _) =
        bind-eq-ok (validate_cidrs net policy.allowed_cidrs)
          (λ _. validate_suffixes policy.dns_suffixes) h in
      let (networks, r) = parse_networks_total policy.allowed_cidrs c in
      (
        record {
          networks = networks;
          ports = add_ports net policy.allowed_ports;
          suffixes = map normalize_name policy.dns_suffixes;
        },
        ground (arith, r),
      )
