-- ===== src/Tests/SessionTests.antt =====
-- Handshakes, sessions and configurations at concrete inputs.
use colnk.Common.{
  ◌⊎◌, bytes_beq, rejected, lookup, insert, ◌≡◌, ◌≤◌, refl, Bytes, codes, [], ◌∷◌, none, some, true,
  false, ok, err, pos, arith, done, bytes_eq, unauthorized, is_empty, Bool,
}
use colnk.Common.Paths.{is_abs, clean, clean_rest}
use colnk.Protocol.Types.{NetworkPolicy, Handshake, HandshakeAck}
use colnk.Protocol.Frame.{Json, Writer, read_json, read_full, get_uint32, write_bytes, put_uint32}
use colnk.Transport.Accept.{acceptance, error_session_active, Endpoint, accept_when}
use colnk.Transport.Accept.Admitted.{IsAccepted, accept_when-ok, accept_when-unauthorized}
use colnk.Server.Session.{Setup, dns, serve_session, admit}
use colnk.Server.Session.Balance.{held_after, is_kept, held_after-serve_session}
use colnk.Server.Session.Single.{Sessions, here, after, admitted_session, Steps-serving}
use colnk.Config.Server
use colnk.Config.Server.Bounds.{IsWithinLimits, HasValidDns, validate_config_lem}
use colnk.Config.Server.{valid_interface_name}
use colnk.Config.Client.{dedupe_strings}
use colnk.Config.Address.{validate_address, IsAddress}
use colnk.Transport.Dial
use colnk.Transport.Dial.{check_ack, hello, is_permanent, same_network_share}
use colnk.Transport.Dial.Agreement.{check_ack-transient}
use colnk.Tests.Codecs.{one_value, Handshake-discrete}
use colnk.Tests.Nets.{some_net}

abbrev requested : NetworkPolicy
requested = record {
  allowed_cidrs = codes "10.0.0.7/32" ∷ [];
  allowed_ports = [];
  dns_suffixes = [];
  max_tcp_connections = pos 0;
}

abbrev limits : NetworkPolicy
limits = record {
  allowed_cidrs = [];
  allowed_ports = [];
  dns_suffixes = [];
  max_tcp_connections = pos 9;
}

abbrev effective : NetworkPolicy
effective = record requested { max_tcp_connections = pos 9 }

abbrev handshake : Handshake
handshake = record {
  major_version = pos 4;
  minor_version = pos 1;
  api_key = codes "key";
  policy = requested;
}

abbrev request_json : Json Handshake
request_json = one_value Handshake-discrete handshake

-- A codec of acknowledgements that never fails.
abbrev ack_json : Json HandshakeAck
ack_json = record { marshal = λ _. some (b'a' ∷ []); unmarshal = λ _. none }

abbrev start : Endpoint Bool
start = record {
  incoming = 0 ∷ 0 ∷ 0 ∷ 2 ∷ b'{' ∷ b'}' ∷ [];
  outgoing = record { written = []; breaks_after = 100 };
  shared = false;
}

abbrev behind : Endpoint Bool
behind = record {
  incoming = [];
  outgoing = record { written = 0 ∷ 0 ∷ 0 ∷ 1 ∷ b'a' ∷ []; breaks_after = 100 };
  shared = true;
}

accepted :
    accept_when some_net request_json ack_json false true (codes "key") limits (some admit) start
    ≡ ((ok effective, true), behind)
unfolding accept_when admit read_full get_uint32 write_bytes put_uint32
accepted = refl

was_read : read_json request_json start.incoming ≡ done handshake []
unfolding read_json read_full get_uint32
was_read = refl

accept_when-ok_example :
    (h : Handshake) × (rest : Bytes) × (read_json request_json start.incoming ≡ done h rest)
    × IsAccepted some_net (codes "key") limits h effective
accept_when-ok_example =
    accept_when-ok some_net request_json ack_json false true (codes "key") (some admit) limits
      effective true start behind accepted

accept_when-unauthorized_example :
    (w : Writer) × (accept_when some_net request_json ack_json false true
        (codes "other")
        limits
        (some admit)
        start
      ≡ ((err unauthorized, false), record { incoming = []; outgoing = w; shared = false }))
accept_when-unauthorized_example =
    accept_when-unauthorized some_net request_json ack_json false true (codes "other") (some admit)
      limits handshake [] start was_read (ground arith)

abbrev none_served : Sessions
none_served = record { active = false; serving = 0 }

abbrev one_served : Sessions
one_served = record { active = true; serving = 1 }

Steps-serving_example : 1 ≤ 1
Steps-serving_example =
    Steps-serving some_net request_json ack_json (codes "key") limits none_served one_served
      (after none_served one_served one_served
        (admitted_session none_served false true start behind (ok effective) refl accepted)
        (here one_served))
      refl

abbrev broken_dns : Setup
broken_dns = record {
  accepted = true;
  admitted = true;
  mounts = true;
  network_starts = true;
  dns = record {
    starts = true;
    configure_resolver = true;
    address = codes "x";
    resolver_configured = true;
    stops = false;
    resolver_restored = true;
  };
  network_stops = true;
  unmounts = true;
}

still_held : held_after dns false (serve_session broken_dns) ≡ true
unfolding held_after serve_session
still_held = refl

held_after-serve_session_example : is_kept broken_dns dns ≡ true
held_after-serve_session_example = held_after-serve_session broken_dns dns still_held

deduped :
    dedupe_strings (codes " a" ∷ [] ∷ codes "b" ∷ codes "a " ∷ []) ≡ codes "a" ∷ codes "b" ∷ []
unfolding dedupe_strings lookup insert
deduped = refl

abbrev config : Server.Config
config = record {
  listen = codes ":7443";
  api_key = codes "key";
  mountpoint = codes "/mnt//local/";
  interface_name = codes "local0";
  dns_address = codes "10.0.0.7:53";
  upstream_dns = codes "dns.example:53";
  proxy_port = pos 15001;
  configure_resolver = true;
  allow_other = false;
  metadata_cache_ttl = pos 10000000000;
  policy = limits;
}

config_valid :
    Server.validate_config some_net config ≡ ok (record config { mountpoint = codes "/mnt/local" })
unfolding Server.validate_config validate_address is_abs clean clean_rest
config_valid = refl

validate_config_lem_example :
    (record config { mountpoint = codes "/mnt/local" }
      ≡ record config { mountpoint = clean (codes "/mnt//local/") })
    × (is_empty (codes "key") ≡ false)
    × IsAddress some_net (codes ":7443") true
    × (is_abs (codes "/mnt//local/") ≡ true)
    × IsWithinLimits some_net config
    × HasValidDns some_net config
validate_config_lem_example =
    validate_config_lem some_net config (record config { mountpoint = codes "/mnt/local" })
      config_valid

abbrev dial_config : Dial.Config
dial_config = record { endpoint = codes "a:1"; credential = codes "key"; policy = requested }

abbrev busy_ack : HandshakeAck
busy_ack = record (acceptance handshake limits) {
  accepted = false;
  error_code = codes "session_active";
}

busy : check_ack dial_config true busy_ack ≡ err rejected
unfolding check_ack
busy = refl

transient : is_permanent rejected ≡ false
unfolding is_permanent
transient = refl

check_ack-transient_example :
    ((false ≡ false) × (bytes_beq (codes "session_active") error_session_active ≡ true))
    ⊎ (true ≡ false)
check_ack-transient_example = check_ack-transient dial_config true busy_ack rejected busy transient

granted :
    check_ack dial_config true (acceptance handshake limits) ≡ ok (acceptance handshake limits)
unfolding check_ack
granted = refl
