-- ===== src/Protocol/Message.antt =====
-- pkg/protocol/message.go: a request or a response is a JSON header that names the length and the
-- encoding of the payload behind it.
pub mod RoundTrip
use colnk.Common.{
  ℕ, ◌<◌, ℤ, pos, Bytes, length, ltb, Io, ◌>>=◌, ◌>>◌, pure, lift, fail_if, payload_too_large,
}
use colnk.Protocol.Types.{Request, Response, max_payload_bytes, max_response_payload_bytes}
use colnk.Protocol.Frame.{Json, Writer, write_json, read_json}
use colnk.Protocol.Payload.{
  Flate, Encoded, encode_payload, decode_payload, write_payload, read_payload,
}

-- The header fields that describe the payload.
abbrev pub describe : Request → Encoded → Request
describe request p = record request {
  data_length = pos (length p.payload);
  data_encoding = p.encoding;
  raw_data_length = pos p.raw_length;
}

abbrev pub describe_response : Response → Encoded → Response
describe_response response p = record response {
  data_length = pos (length p.payload);
  data_encoding = p.encoding;
  raw_data_length = pos p.raw_length;
}

module _ (f : Flate) (j : Json Request) where
  unfoldable pub write_request : Request → Bytes → Io Writer (Unit {0})
  write_request request content = do
    fail_if (ltb max_payload_bytes (length content)) payload_too_large
    p ← lift (encode_payload f content)
    write_json j (describe request p)
    write_payload p.payload

  unfoldable pub read_request_payload : Request → Io Bytes Bytes
  read_request_payload request = do
    content ← read_payload request.data_length max_payload_bytes
    lift (decode_payload f content request.data_encoding request.raw_data_length max_payload_bytes)

  unfoldable pub read_request_header : Io Bytes Request
  read_request_header = read_json j

  unfoldable pub read_request : Io Bytes (Request × Bytes)
  unfolding read_request_header
  read_request = do
    request ← read_request_header
    content ← read_request_payload request
    pure (request, content)

module _ (f : Flate) (j : Json Response) where
  unfoldable pub write_response : Response → Bytes → Io Writer (Unit {0})
  write_response response content = do
    fail_if (ltb max_response_payload_bytes (length content)) payload_too_large
    p ← lift (encode_payload f content)
    write_json j (describe_response response p)
    write_payload p.payload

  unfoldable pub read_response : Io Bytes (Response × Bytes)
  read_response = do
    response ← read_json j
    content ← read_payload response.data_length max_response_payload_bytes
    raw ← lift (
        decode_payload f content response.data_encoding response.raw_data_length
          max_response_payload_bytes)
    pure (response, raw)
