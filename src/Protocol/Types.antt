-- ===== src/Protocol/Types.antt =====
-- pkg/protocol/types.go: limits and messages. Go's int and int64 fields are integers, its unsigned
-- fields are numbers, its strings are bytes.
use colnk.Common.{ℕ, ◌*◌, ◌^◌, ℤ, pos, Bool, Bytes, codes, List, [], ◌∷◌, Option}

abbrev pub major_version : ℕ
major_version = 4

abbrev pub minor_version : ℕ
minor_version = 1

-- 64 << 10
abbrev pub max_header_bytes : ℕ
max_header_bytes = 64 * 2 ^ 10

-- 1 << 20
abbrev pub max_payload_bytes : ℕ
max_payload_bytes = 2 ^ 20

-- 8 << 20
abbrev pub max_response_payload_bytes : ℕ
max_response_payload_bytes = 8 * 2 ^ 20

-- 1 << 20
abbrev pub directory_page_payload_bytes : ℕ
directory_page_payload_bytes = 2 ^ 20

abbrev pub kind_file : Bytes
kind_file = codes "file"

abbrev pub kind_tcp : Bytes
kind_tcp = codes "tcp"

abbrev pub kind_dns : Bytes
kind_dns = codes "dns"

pub record NetworkPolicy : Type 0 where
  pub allowed_cidrs : List Bytes
  pub allowed_ports : List ℕ
  pub dns_suffixes : List Bytes
  pub max_tcp_connections : ℤ

abbrev pub default_network_policy : NetworkPolicy
default_network_policy = record {
  allowed_cidrs = codes "100.64.0.1/32" ∷ [];
  allowed_ports = [];
  dns_suffixes = codes "colnk" ∷ [];
  max_tcp_connections = pos 0;
}

pub record Handshake : Type 0 where
  pub major_version : ℤ
  pub minor_version : ℤ
  pub api_key : Bytes
  pub policy : NetworkPolicy

pub record HandshakeAck : Type 0 where
  pub accepted : Bool
  pub error_code : Bytes
  pub error : Bytes
  pub major_version : ℤ
  pub minor_version : ℤ
  pub policy : NetworkPolicy

pub record FileAttr : Type 0 where
  pub mode : ℕ
  pub size : ℕ
  pub mod_time_ns : ℤ
  pub inode : ℕ
  pub uid : ℕ
  pub gid : ℕ

pub record DirEntry : Type 0 where
  pub name : Bytes
  pub attr : FileAttr
  pub link_target : Bytes

pub record Request : Type 0 where
  pub kind : Bytes
  pub operation : Bytes
  pub path : Bytes
  pub new_path : Bytes
  pub target : Bytes
  pub offset : ℤ
  pub size : ℤ
  pub mode : ℕ
  pub mod_time_ns : ℤ
  pub set_mod_time : Bool
  pub sync : Bool
  pub data_length : ℤ
  pub data_encoding : Bytes
  pub raw_data_length : ℤ

pub record Response : Type 0 where
  pub error_code : ℤ
  pub error : Bytes
  pub attr : Option FileAttr
  pub more : Bool
  pub data_length : ℤ
  pub data_encoding : Bytes
  pub raw_data_length : ℤ
