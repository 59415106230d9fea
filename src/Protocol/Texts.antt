-- ===== src/Protocol/Texts.antt =====
-- The texts of the messages of pkg/protocol/types.go: encoding/json passes texts of valid UTF-8 on, and puts
-- U+FFFD in the place of bytes that are none.
use colnk.Common.{List, All}
use colnk.Common.Utf8.{IsUtf8}
use colnk.Protocol.Types.{NetworkPolicy, Handshake, HandshakeAck, Request, Response, DirEntry}

abbrev pub IsUtf8Request : Request → Type 0
IsUtf8Request request =
    IsUtf8 request.kind
    × IsUtf8 request.operation
    × IsUtf8 request.path
    × IsUtf8 request.new_path
    × IsUtf8 request.target
    × IsUtf8 request.data_encoding

abbrev pub IsUtf8Response : Response → Type 0
IsUtf8Response response = IsUtf8 response.error × IsUtf8 response.data_encoding

abbrev pub IsUtf8Entry : DirEntry → Type 0
IsUtf8Entry entry = IsUtf8 entry.name × IsUtf8 entry.link_target

abbrev pub IsUtf8Listing : List DirEntry → Type 0
IsUtf8Listing = All IsUtf8Entry

abbrev pub IsUtf8Policy : NetworkPolicy → Type 0
IsUtf8Policy policy = All IsUtf8 policy.allowed_cidrs × All IsUtf8 policy.dns_suffixes

abbrev pub IsUtf8Handshake : Handshake → Type 0
IsUtf8Handshake handshake = IsUtf8 handshake.api_key × IsUtf8Policy handshake.policy

abbrev pub IsUtf8Ack : HandshakeAck → Type 0
IsUtf8Ack ack = IsUtf8 ack.error_code × IsUtf8 ack.error × IsUtf8Policy ack.policy
