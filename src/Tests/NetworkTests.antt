-- ===== src/Tests/NetworkTests.antt =====
-- Policies and names at concrete inputs.
use colnk.Common.{
  ℕ, ◌≡◌, ◌↔◌, ◌≤◌, refl, codes, [], ◌∷◌, true, false, ok, err, pos, arith, All, read_failed,
}
use colnk.Common.Net.{v4, normalize_name}
use colnk.Protocol.Types.{NetworkPolicy}
use colnk.Protocol.Validate.{validate_network_policy}
use colnk.Provider.NetworkPolicy.{ParsedPolicy, parse_network_policy, allow_tcp}
use colnk.Provider.NetworkPolicy.Allowed.{allow_tcp-eq, allows_tcp}
use colnk.Provider.NetworkHandler.{handle_tcp, handle_dns, denied, eacces, proxied}
use colnk.Provider.NetworkHandler.Agreement.{handle_dns-denied}
use colnk.Provider.NetworkHandler.Limits.{Connections, here, after, request_proxied, Steps-opened}
use colnk.Agent.Dns.{a, answers, serve_dns, is_local_name}
use colnk.Agent.Dns.Answers.{IsProper, serve_dns-IsProper}
use colnk.Tests.Nets.{some_net}

abbrev policy : NetworkPolicy
policy = record {
  allowed_cidrs = codes "100.64.0.1/32" ∷ [];
  allowed_ports = 80 ∷ [];
  dns_suffixes = codes "CoLnk." ∷ [];
  max_tcp_connections = pos 4;
}

policy_valid : validate_network_policy some_net policy ≡ ok tt
unfolding validate_network_policy normalize_name
policy_valid = refl

abbrev parsed_policy : ParsedPolicy ℕ
parsed_policy = record { networks = 1 ∷ []; ports = (80, tt) ∷ []; suffixes = codes "colnk" ∷ [] }

policy_parsed : parse_network_policy some_net policy ≡ ok parsed_policy
unfolding parse_network_policy
policy_parsed = refl

allow_tcp_test :
    (allow_tcp some_net parsed_policy (codes "100.64.0.1:80") ≡ true)
    × (allow_tcp some_net parsed_policy (codes "100.64.0.1:81") ≡ false)
    × (allow_tcp some_net parsed_policy (codes "10.0.0.7:80") ≡ false)
unfolding allow_tcp
allow_tcp_test = (refl, refl, refl)

allow_tcp-eq_example :
    allow_tcp some_net parsed_policy (codes "100.64.0.1:80")
    ≡ allows_tcp some_net policy (codes "100.64.0.1:80")
allow_tcp-eq_example =
    allow_tcp-eq some_net policy parsed_policy policy_parsed (codes "100.64.0.1:80")

handle_dns-denied_example :
    (handle_dns some_net parsed_policy (λ _. err read_failed) (λ _. []) (codes "example.org")
      ≡ denied eacces)
    ↔ (is_local_name policy (codes "example.org") ≡ false)
handle_dns-denied_example =
    handle_dns-denied some_net policy parsed_policy policy_parsed (λ _. err read_failed) (λ _. [])
      (codes "example.org") (ground arith)

served :
    serve_dns some_net policy
      (1 ∷ [])
      (λ _. ok (codes "100.64.0.1" ∷ codes "10.0.0.7" ∷ codes "x" ∷ []))
      (record { name = codes "db.colnk."; qtype = 1 } ∷ [])
    ≡ answers (a (codes "db.colnk.") (v4 1) ∷ [])
unfolding serve_dns
served = refl

serve_dns-IsProper_example :
    All
      (IsProper some_net (1 ∷ []) (record { name = codes "db.colnk."; qtype = 1 }))
      (a (codes "db.colnk.") (v4 1) ∷ [])
serve_dns-IsProper_example =
    serve_dns-IsProper some_net policy (1 ∷ [])
      (λ _. ok (codes "100.64.0.1" ∷ codes "10.0.0.7" ∷ codes "x" ∷ []))
      (record { name = codes "db.colnk."; qtype = 1 }) (a (codes "db.colnk.") (v4 1) ∷ []) served

abbrev idle : Connections
idle = record { opened = 0; slots = record { used = 0; capacity = 1 } }

abbrev busy : Connections
busy = record { opened = 1; slots = record { used = 1; capacity = 1 } }

proxied_once :
    handle_tcp some_net parsed_policy (λ _. true) true (codes "100.64.0.1:80") idle.slots
    ≡ (proxied (codes "127.0.0.1:80"), busy.slots)
unfolding handle_tcp
proxied_once = refl

Steps-opened_example : 1 ≤ 1
Steps-opened_example =
    Steps-opened some_net parsed_policy idle busy
      (after idle busy busy
        (request_proxied idle (λ _. true) true (codes "100.64.0.1:80") (codes "127.0.0.1:80")
          busy.slots proxied_once)
        (here busy))
      (refl, omega arith)
