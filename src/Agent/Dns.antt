-- ===== src/Agent/Dns.antt =====
-- pkg/agent/network/dns.go: the resolver on the server. The messages of package dns are reduced to what
-- the handler reads and writes; the lookup by the other end and the upstream server are parameters.
pub mod Answers
use colnk.Common.{
  ℕ, Bytes, codes, bytes_beq, List, [], ◌∷◌, ◌++◌, Option, none, some, Bool, true, false, not, ◌&&◌,
  ◌||◌, if◌then◌else◌, any, Result, ok, err, bind, message, nat_beq,
}
use colnk.Common.Net.{normalize_name, is_in_domain, Ip, v4, v6, is_v4, Net}
use colnk.Protocol.Types.{NetworkPolicy}

-- dns.TypeA and dns.TypeAAAA
abbrev pub type_a : ℕ
type_a = 1

abbrev pub type_aaaa : ℕ
type_aaaa = 28

pub record Question : Type 0 where
  pub name : Bytes
  pub qtype : ℕ

pub data Answer : Type 0 where
  a aaaa : Bytes → Ip → Answer

-- What the handler writes: what the upstream server says, an error, or a list of addresses.
pub data Reply : Type 0 where
  forwarded : Reply
  name_error : Reply
  answers : List Answer → Reply

abbrev pub host_name : Bytes
host_name = codes "host.colnk"

unfoldable pub is_local_name : NetworkPolicy → Bytes → Bool
unfolding normalize_name is_in_domain any
is_local_name policy name =
    if bytes_beq (normalize_name name) host_name
    then true
    else any (λ suffix. is_in_domain (normalize_name name) (normalize_name suffix))
        policy.dns_suffixes

module _ {Network : Type 0} (net : Net Network) where
  unfoldable pub parse_networks : List Bytes → Result (List Network)
  parse_networks [] = ok []
  parse_networks (value ∷ values) = elim (net.parse_cidr value) [
    | none ↦ err (message (codes "parse allowed DNS network"))
    | some (ip, network) ↦
        if is_v4 ip
        then bind (parse_networks values) (λ rest. ok (network ∷ rest))
        else err (message (codes "only IPv4 DNS networks are supported"))
  ]

  unfoldable pub allowed_ip : List Network → Option Ip → Bool
  unfolding any
  allowed_ip networks none = false
  allowed_ip networks (some ip) = any (λ network. net.contains network ip) networks

  -- The switch in the loop over the addresses.
  abbrev pub answer_for : Question → Ip → List Answer
  answer_for question ip =
      if nat_beq question.qtype type_a && is_v4 ip
      then a question.name ip ∷ []
      else if nat_beq question.qtype type_aaaa && not (is_v4 ip)
      then aaaa question.name ip ∷ []
      else []

  -- The body of the loop over the addresses.
  unfoldable pub answer_value : List Network → Question → Bytes → List Answer
  unfolding allowed_ip
  answer_value networks question value = elim (net.parse_ip value) [
    | none ↦ []
    | some ip ↦ if allowed_ip networks (some ip) then answer_for question ip else []
  ]

  unfoldable pub answer_values : List Network → Question → List Bytes → List Answer
  unfolding answer_value
  answer_values networks question [] = []
  answer_values networks question (value ∷ values) =
      answer_value networks question value ++ answer_values networks question values

  -- `lookup_dns` is the other end's answer to LookupDNS.
  unfoldable pub serve_dns :
      NetworkPolicy → List Network → (Bytes → Result (List Bytes)) → List Question → Reply
  unfolding is_local_name answer_values
  serve_dns policy networks lookup_dns [] = forwarded
  serve_dns policy networks lookup_dns (question ∷ []) =
      if is_local_name policy question.name
      then elim (lookup_dns question.name) [
        | err _ ↦ name_error
        | ok addresses ↦ answers (answer_values networks question addresses)
      ]
      else forwarded
  serve_dns policy networks lookup_dns (_ ∷ _ ∷ _) = forwarded
