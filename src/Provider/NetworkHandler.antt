-- ===== src/Provider/NetworkHandler.antt =====
-- pkg/provider/network_handler.go: requests for TCP connections and names. A handler is its decision: what
-- it answers at once, or the connection that it proxies. Dialling and the resolver are parameters; audit
-- lines are not modelled. The slots are counted: one is held as long as a request is served.
pub mod Agreement
pub mod Limits
use colnk.Common.{
  ℕ, ◌+◌, ◌-◌, Bytes, codes, bytes_beq, List, [], ◌∷◌, ◌++◌, Option, none, some, Bool, true, false,
  not, ◌&&◌, ◌||◌, if◌then◌else◌, ltb, keep, map, trim_suffix, equal_fold, Result, ok, err,
}
use colnk.Common.Net.{Ip, Net, split_host_port}
use colnk.Provider.NetworkPolicy.{ParsedPolicy, allow_tcp, allow_dns, allow_ip}

-- syscall.EACCES, syscall.EAGAIN, syscall.ECONNREFUSED and syscall.ENOENT
abbrev pub eacces : ℕ
eacces = 13

abbrev pub eagain : ℕ
eagain = 11

abbrev pub econnrefused : ℕ
econnrefused = 111

abbrev pub enoent : ℕ
enoent = 2

-- `tcpSlots` or `dnsSlots`, by the number of slots in use.
pub record Slots : Type 0 where
  pub used : ℕ
  pub capacity : ℕ

-- `select { case slots <- struct{}{}: … default: … }`
abbrev pub acquire : Slots → Option Slots
acquire slots =
    if ltb slots.used slots.capacity then some (record slots { used = slots.used + 1 }) else none

-- `<-slots`
abbrev pub release : Slots → Slots
release slots = record slots { used = slots.used - 1 }

-- What handleTCP does: it answers with an error code, or answers with success and proxies to a target;
-- `unanswered` is a connection whose answer could not be written.
pub data TcpReply : Type 0 where
  unanswered : TcpReply
  refused : ℕ → TcpReply
  proxied : Bytes → TcpReply

-- `host, port, _ := net.SplitHostPort(target)`; the address of the host stands for the client itself.
unfoldable pub dial_target : Bytes → Bytes
unfolding split_host_port
dial_target target = elim (split_host_port target) [
  | none ↦ target
  | some (host, port) ↦
      if bytes_beq host (codes "100.64.0.1") then codes "127.0.0.1:" ++ port else target
]

-- strings.EqualFold(strings.TrimSuffix(name, "."), "host.colnk")
unfoldable pub is_host_name : Bytes → Bool
unfolding trim_suffix equal_fold
is_host_name name = equal_fold (trim_suffix name (codes ".")) (codes "host.colnk")

-- What handleDNS answers: an error code or a list of addresses.
pub data DnsReply : Type 0 where
  denied : ℕ → DnsReply
  resolved : List Bytes → DnsReply

module _ {Network : Type 0} (net : Net Network) (policy : ParsedPolicy Network) where
  -- handleTCP up to the proxying, which holds the slot that the second component has taken. `dial` says
  -- whether a target can be reached, `answers` whether the success can be written to the stream.
  unfoldable pub handle_tcp : (Bytes → Bool) → Bool → Bytes → Slots → TcpReply × Slots
  unfolding allow_tcp dial_target
  handle_tcp dial answers target slots =
      if allow_tcp net policy target
      then elim (acquire slots) [
        | none ↦ (refused eagain, slots)
        | some slots' ↦
            if dial (dial_target target)
            then if answers
              then (proxied (dial_target target), slots')
              else (unanswered, release slots')
            else (refused econnrefused, release slots')
      ]
      else (refused eacces, slots)

  -- `lookup_ip_addr` is the resolver; `ip_text` is IP.String.
  unfoldable pub handle_dns : (Bytes → Result (List Ip)) → (Ip → Bytes) → Bytes → DnsReply
  unfolding allow_dns is_host_name keep allow_ip
  handle_dns lookup_ip_addr ip_text name =
      if not (allow_dns net policy name) && not (is_host_name name)
      then denied eacces
      else if is_host_name name
      then resolved (codes "100.64.0.1" ∷ [])
      else elim (lookup_ip_addr name) [
        | err _ ↦ denied enoent
        | ok values ↦ resolved (map ip_text (keep (λ ip. allow_ip net policy (some ip)) values))
      ]

  unfoldable pub handle_dns_limited :
      (Bytes → Result (List Ip)) → (Ip → Bytes) → Bytes → Slots → DnsReply × Slots
  unfolding handle_dns
  handle_dns_limited lookup_ip_addr ip_text name slots = elim (acquire slots) [
    | none ↦ (denied eagain, slots)
    | some slots' ↦ (handle_dns lookup_ip_addr ip_text name, release slots')
  ]
