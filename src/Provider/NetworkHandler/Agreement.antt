-- ===== src/Provider/NetworkHandler/Agreement.antt =====
-- The client's handler of names (pkg/provider/network_handler.go) beside the resolver of the server
-- (pkg/agent/network/dns.go).
use colnk.Common.{
  err, not, ◌&&◌, true, if◌then◌else◌, IsAscii, equal_fold-lower, All-reverse, All-drop, ◌<◌,
  if◌then◌else◌, Bool-cases, inl, inr, ◌∙◌, ◌≡◌, ◌↔◌, refl, sym, ap, Bytes, codes, bytes_beq, List,
  [], ◌∷◌, reverse, map, drop, Bool, false, ◌||◌, any, trim_suffix, has_suffix, has_prefix,
  to_lower, Result, ok, arith,
}
use mathlib.Mathlib.Data.List.Basic.{map-reverse_aux}
use colnk.Common.Net.{normalize_name, is_in_domain, Ip, Net}
use colnk.Protocol.Types.{NetworkPolicy}
use colnk.Agent.Dns.{is_local_name, host_name}
use colnk.Provider.NetworkPolicy.{ParsedPolicy, parse_network_policy, allow_dns}
use colnk.Provider.NetworkPolicy.Allowed.{allow_dns-eq}
use colnk.Provider.NetworkHandler.{
  is_host_name, handle_dns, denied, resolved, DnsReply, eacces, enoent,
}

-- Lower case and a dot at the end: neither changes the other.
starts_with_dot_lower : (s : Bytes) → has_prefix (to_lower s) (codes ".") ≡ has_prefix s (codes ".")
unfolding to_lower
starts_with_dot_lower [] = refl
starts_with_dot_lower (c ∷ s) = ground arith

drop_lower : (s : Bytes) → drop 1 (to_lower s) ≡ to_lower (drop 1 s)
unfolding to_lower
drop_lower [] = refl
drop_lower (c ∷ s) = refl

reverse_lower : (s : Bytes) → reverse (to_lower s) ≡ to_lower (reverse s)
unfolding to_lower
reverse_lower s = sym (map-reverse_aux _ s [])

trim_suffix_lower :
    (s : Bytes) → trim_suffix (to_lower s) (codes ".") ≡ to_lower (trim_suffix s (codes "."))
unfolding trim_suffix has_suffix
trim_suffix_lower s = rw (reverse_lower s) (
    ground (
      arith,
      starts_with_dot_lower (reverse s),
      drop_lower (reverse s),
      reverse_lower (drop 1 (reverse s)),
    ))

trim_suffix-IsAscii : (s : Bytes) → IsAscii s → IsAscii (trim_suffix s (codes "."))
unfolding trim_suffix
trim_suffix-IsAscii s h = elim (Bool-cases (has_suffix s (codes "."))) [
  | inl e ↦ rw e (
      All-reverse (λ c. c < 128) (drop 1 (reverse s))
        (All-drop (λ c. c < 128) 1 (reverse s) (All-reverse (λ c. c < 128) s h)))
  | inr e ↦ rw e h
]

is_host_name-eq :
    (name : Bytes) → IsAscii name → is_host_name name ≡ bytes_beq (normalize_name name) host_name
unfolding is_host_name normalize_name
is_host_name-eq name h =
    equal_fold-lower (trim_suffix name (codes ".")) (codes "host.colnk")
      (trim_suffix-IsAscii name h)
    ∙ unfold to_lower in ap (λ s. bytes_beq s host_name) (sym (trim_suffix_lower name))

any-map :
    {A B : Type 0} (f : A → B) (p : B → Bool) (xs : List A)
    → any p (map f xs) ≡ any (λ x. p (f x)) xs
unfolding any
any-map f p [] = refl
any-map f p (x ∷ xs) = ap (◌||◌ (p (f x))) (any-map f p xs)

-- The branches of handleDNS, by its two tests.
decision :
    (allowed host : Bool) (fixed : List Bytes) (found : Result (List Ip))
    (texts : List Ip → List Bytes)
    → ((if not allowed && not host
          then denied eacces
          else if host
          then resolved fixed
          else elim found as (λ _. DnsReply) [
            | err _ ↦ denied enoent
            | ok values ↦ resolved (texts values)
          ])
        ≡ denied eacces)
      ↔ ((allowed || host) ≡ false)
decision true true fixed found texts = ground arith
decision true false fixed (err e) texts = ground arith
decision true false fixed (ok values) texts = ground arith
decision false true fixed found texts = ground arith
decision false false fixed found texts = ground arith

module _ {Network : Type 0} (net : Net Network) (policy : NetworkPolicy) (p : ParsedPolicy Network)
    (h : parse_network_policy net policy ≡ ok p) where
  -- With the policy that the client parsed, the server sends a name of ASCII to the client exactly when the
  -- policy allows the name or it is the name of the host.
  pub is_local_name-eq :
      (name : Bytes)
      → IsAscii name
      → is_local_name policy name ≡ allow_dns net p name || is_host_name name
  unfolding is_local_name
  is_local_name-eq name ascii = ground (
    arith,
    is_host_name-eq name ascii,
    allow_dns-eq net policy p h name,
    any-map normalize_name (is_in_domain (normalize_name name)) policy.dns_suffixes,
  )

  denied_iff :
      (lookup_ip_addr : Bytes → Result (List Ip)) (ip_text : Ip → Bytes) (name : Bytes)
      → (handle_dns net p lookup_ip_addr ip_text name ≡ denied eacces)
        ↔ ((allow_dns net p name || is_host_name name) ≡ false)
  unfolding handle_dns
  denied_iff lookup_ip_addr ip_text name =
      decision (allow_dns net p name) (is_host_name name) _ (lookup_ip_addr name) _

  -- The client denies a name of ASCII by its policy exactly when the resolver of the server, with the same
  -- policy, would not send it.
  pub handle_dns-denied :
      (lookup_ip_addr : Bytes → Result (List Ip)) (ip_text : Ip → Bytes) (name : Bytes)
      → IsAscii name
      → (handle_dns net p lookup_ip_addr ip_text name ≡ denied eacces)
        ↔ (is_local_name policy name ≡ false)
  handle_dns-denied lookup_ip_addr ip_text name ascii =
      rw (is_local_name-eq name ascii) (denied_iff lookup_ip_addr ip_text name)
