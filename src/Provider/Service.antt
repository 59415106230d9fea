-- ===== src/Provider/Service.antt =====
-- pkg/provider/service.go, filesystem_handler.go and audit.go: the limits of the service, the dispatch of
-- a request, and how much memory a file request may take. Audit lines and deadlines are not modelled.
pub mod Weight
use colnk.Common.{
  ℕ, ◌+◌, ◌*◌, ◌^◌, Bytes, codes, bytes_beq, is_empty, Bool, true, false, not, ◌&&◌, ◌||◌,
  if◌then◌else◌, Option, none, some, ltb, ℤ, pos, negsuc, leb_ℤ, ltb_ℤ, max_ℤ, min_ℤ, is_zero,
  Result, ok, err, bind,
}
use colnk.Common.Net.{Net}
use colnk.Protocol.Types.{NetworkPolicy, Request, kind_file, kind_tcp, kind_dns, max_payload_bytes}
use colnk.Provider.NetworkPolicy.{ParsedPolicy, parse_network_policy}
use colnk.Provider.NetworkHandler.{Slots, acquire, eagain}

abbrev pub concurrent_file_requests : ℕ
concurrent_file_requests = 32

abbrev pub concurrent_dns_requests : ℕ
concurrent_dns_requests = 8

-- 64 << 20
abbrev pub max_in_flight_file_bytes : ℕ
max_in_flight_file_bytes = 64 * 2 ^ 20

-- syscall.EINVAL and syscall.ENOSYS
abbrev pub einval : ℕ
einval = 22

abbrev pub enosys : ℕ
enosys = 38

-- The service, by its policy and the limits that are in force.
pub record Service (Network : Type 0) : Type 0 where
  pub policy : ParsedPolicy Network
  pub tcp_slots : Slots
  pub file_slots : Slots
  pub dns_slots : Slots
  pub stream_slots : Slots
  pub payload_budget : ℕ

-- 256 where the policy has no positive limit, and at most 1024.
unfoldable pub connection_limit : ℤ → ℕ
connection_limit (negsuc n) = 256
connection_limit (pos n) = if ltb 0 n then (if ltb n 1024 then n else 1024) else 256

abbrev pub idle_slots : ℕ → Slots
idle_slots capacity = record { used = 0; capacity = capacity }

-- `new_file_service` is NewFileService on the root.
unfoldable pub new_service :
    {Network : Type 0} → Net Network → Result (Unit {0}) → NetworkPolicy → Result (Service Network)
unfolding parse_network_policy connection_limit
new_service net new_file_service network_policy = bind new_file_service λ _.
    bind (parse_network_policy net network_policy) λ policy.
      let limit = connection_limit network_policy.max_tcp_connections in
      ok (record {
        policy = policy;
        tcp_slots = idle_slots limit;
        file_slots = idle_slots concurrent_file_requests;
        dns_slots = idle_slots concurrent_dns_requests;
        stream_slots = idle_slots (limit + concurrent_file_requests + concurrent_dns_requests);
        payload_budget = max_in_flight_file_bytes;
      })

unfoldable pub request_has_payload : Request → Bool
request_has_payload request =
    not (is_zero request.data_length)
    || (not (is_zero request.raw_data_length) || not (is_empty request.data_encoding))

-- What handleStream does with a request.
pub data Dispatch : Type 0 where
  refuse : ℕ → Dispatch
  handle_file handle_tcp handle_dns_limited : Dispatch

unfoldable pub handle_stream : Request → Dispatch
unfolding request_has_payload
handle_stream request =
    if not (bytes_beq request.kind kind_file) && request_has_payload request
    then refuse einval
    else if bytes_beq request.kind kind_file
    then handle_file
    else if bytes_beq request.kind kind_tcp
    then handle_tcp
    else if bytes_beq request.kind kind_dns
    then handle_dns_limited
    else refuse enosys

abbrev pub add_payload : ℤ → ℤ
add_payload (pos n) = pos (n + max_payload_bytes)
add_payload (negsuc n) = negsuc 0

-- The weight by the larger of the two lengths.
unfoldable pub incoming_weight : ℤ → ℤ
incoming_weight incoming =
    if ltb_ℤ incoming (pos 0) || ltb_ℤ (pos max_payload_bytes) incoming
    then negsuc 0
    else add_payload incoming

-- -1, or the bytes that a file request may take: its payload and that of the response.
unfoldable pub file_request_weight : Request → ℤ
unfolding incoming_weight
file_request_weight request = incoming_weight (max_ℤ request.data_length request.raw_data_length)

-- How handleFile begins: it refuses, or takes a slot and waits for its weight.
pub data FileBegin : Type 0 where
  refused : ℕ → FileBegin
  weighed : ℕ → FileBegin

abbrev pub weigh : ℤ → FileBegin
weigh (negsuc n) = refused einval
weigh (pos w) =
    if not (ltb 0 w) || ltb max_in_flight_file_bytes w then refused einval else weighed w

unfoldable pub begin_file : Request → Slots → FileBegin × Slots
unfolding file_request_weight
begin_file request slots = elim (acquire slots) [
  | none ↦ (refused eagain, slots)
  | some slots' ↦ elim (weigh (file_request_weight request)) [
    | refused code ↦ (refused code, slots)
    | weighed w ↦ (weighed w, slots')
  ]
]
