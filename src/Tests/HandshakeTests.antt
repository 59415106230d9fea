-- ===== src/Tests/HandshakeTests.antt =====
-- A handshake from one end to the other at concrete inputs.
use colnk.Common.{Bool, ◌≡◌, refl, codes, [], ◌∷◌, some, true, false, pos, ok, done, arith}
use colnk.Common.Utf8.{continues}
use colnk.Protocol.Types.{NetworkPolicy, Handshake, HandshakeAck}
use colnk.Protocol.Texts.{IsUtf8Handshake, IsUtf8Ack}
use colnk.Protocol.Frame.{Json, Writer, write_json, read_full, get_uint32, write_bytes, put_uint32}
use colnk.Transport.Accept.{acceptance, Endpoint, accept_when}
use colnk.Transport.Dial.{Config, hello, dial_raw}
use colnk.Transport.Handshake.{dial_raw-accept_when}
use colnk.Server.Session.{admit}
use colnk.Tests.Codecs.{
  one_value, one_value-JsonLaws, one_value-marshal, Handshake-discrete, HandshakeAck-discrete,
}
use colnk.Tests.Nets.{some_net}

abbrev requested : NetworkPolicy
requested = record {
  allowed_cidrs = codes "10.0.0.7/32" ∷ [];
  allowed_ports = [];
  dns_suffixes = [];
  max_tcp_connections = pos 0;
}

abbrev limits : NetworkPolicy
limits = record {
  allowed_cidrs = [];
  allowed_ports = [];
  dns_suffixes = [];
  max_tcp_connections = pos 9;
}

abbrev effective : NetworkPolicy
effective = record requested { max_tcp_connections = pos 9 }

abbrev config : Config
config = record { endpoint = codes "a:1"; credential = codes "key"; policy = requested }

abbrev request_json : Json Handshake
request_json = one_value Handshake-discrete (hello config)

abbrev ack : HandshakeAck
ack = acceptance (hello config) effective

abbrev ack_json : Json HandshakeAck
ack_json = one_value HandshakeAck-discrete ack

abbrev fresh : Writer
fresh = record { written = []; breaks_after = 100 }

abbrev sent : Writer
sent = record { written = 0 ∷ 0 ∷ 0 ∷ 2 ∷ b'{' ∷ b'}' ∷ []; breaks_after = 100 }

abbrev before : Endpoint Bool
before = record { incoming = sent.written; outgoing = fresh; shared = false }

abbrev behind : Endpoint Bool
behind = record { incoming = []; outgoing = sent; shared = true }

client_wrote : write_json request_json (hello config) fresh ≡ done tt sent
unfolding write_json write_bytes put_uint32
client_wrote = ground (arith, one_value-marshal Handshake-discrete (hello config))

server_wrote : write_json ack_json ack fresh ≡ done tt sent
unfolding write_json write_bytes put_uint32
server_wrote = ground (arith, one_value-marshal HandshakeAck-discrete ack)

was_accepted :
    accept_when some_net request_json ack_json false true (codes "key") limits (some admit) before
    ≡ ((ok effective, true), behind)
unfolding accept_when admit read_full get_uint32
was_accepted = ground (arith, server_wrote)

dial_raw-accept_when_example :
    (dial_raw request_json ack_json true config sent.written fresh ≡ ok ack)
    × (effective ≡ record requested { max_tcp_connections = pos 9 })
    × (codes "key" ≡ codes "key")
unfolding continues
dial_raw-accept_when_example =
    dial_raw-accept_when some_net request_json ack_json false true
      (one_value-JsonLaws IsUtf8Handshake Handshake-discrete (hello config))
      (one_value-JsonLaws IsUtf8Ack HandshakeAck-discrete ack) config (codes "key") limits effective
      (some admit) true fresh sent before behind (refl, ((refl, tt), tt)) refl refl client_wrote
      refl was_accepted
