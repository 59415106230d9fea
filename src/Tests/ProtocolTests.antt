-- ===== src/Tests/ProtocolTests.antt =====
-- pkg/protocol at concrete inputs.
use colnk.Common.{
  ◌≤◌, ◌≡◌, refl, Bytes, codes, length, List, [], ◌∷◌, ◌++◌, All, none, some, true, false, ok, err,
  done, failed, pos, negsuc, arith, invalid_header_length, invalid_raw_length,
}
use colnk.Common.Utf8.{continues}
use colnk.Protocol.Texts.{IsUtf8Request, IsUtf8Response, IsUtf8Listing}
use colnk.Protocol.Types.{Request, Response, DirEntry, FileAttr, kind_file, max_payload_bytes}
use colnk.Protocol.Frame.{
  Writer, write_bytes, read_full, put_uint32, get_uint32, write_json, read_json,
}
use colnk.Protocol.Payload.{Encoded, as_is, encode_payload, decode_payload, write_payload}
use colnk.Protocol.Payload.Bounds.{decode_payload_bounds, decode_payload-encode_payload}
use colnk.Protocol.Message.{
  describe, describe_response, write_request, read_request, write_response, read_response,
}
use colnk.Protocol.Message.RoundTrip.{read_request-write_request, read_response-write_response}
use colnk.Protocol.Directory.{encode_dir_entries, encode_page, encode_dir_entry_pages, decode_pages}
use colnk.Protocol.Directory.Pages.{IsPage, decode_pages-encode_dir_entry_pages}
use colnk.Tests.Codecs.{
  one_value, one_value-JsonLaws, one_value-marshal, Request-discrete, Response-discrete,
  entries-discrete, no_flate, no_flate-FlateLaws,
}

abbrev content : Bytes
content = codes "abc"

abbrev request : Request
request = record {
  kind = kind_file;
  operation = codes "write";
  path = codes "a/b";
  new_path = [];
  target = [];
  offset = pos 7;
  size = pos 0;
  mode = 0;
  mod_time_ns = negsuc 0;
  set_mod_time = true;
  sync = false;
  data_length = pos 0;
  data_encoding = [];
  raw_data_length = pos 0;
}

abbrev response : Response
response = record {
  error_code = pos 0;
  error = [];
  attr = none;
  more = true;
  data_length = pos 0;
  data_encoding = [];
  raw_data_length = pos 0;
}

abbrev empty_writer : Writer
empty_writer = record { written = []; breaks_after = 100 }

abbrev sent_request : Request
sent_request = describe request (as_is content)

abbrev sent_response : Response
sent_response = describe_response response (as_is content)

abbrev wire : Bytes
wire = 0 ∷ 0 ∷ 0 ∷ 2 ∷ codes "{}abc"

request_written :
    write_request no_flate (one_value Request-discrete sent_request) request content empty_writer
    ≡ done tt (record empty_writer { written = wire })
unfolding write_request encode_payload write_json write_bytes write_payload put_uint32
request_written = ground (arith, one_value-marshal Request-discrete sent_request)

response_written :
    write_response no_flate
      (one_value Response-discrete sent_response)
      response
      content
      empty_writer
    ≡ done tt (record empty_writer { written = wire })
unfolding write_response encode_payload write_json write_bytes write_payload put_uint32
response_written = ground (arith, one_value-marshal Response-discrete sent_response)

read_request-write_request_example :
    (p : Encoded) × (sent : Bytes) × (wire ≡ [] ++ sent)
    × ((rest : Bytes)
        → read_request no_flate (one_value Request-discrete sent_request) (sent ++ rest)
          ≡ done (describe request p, content) rest)
unfolding continues
read_request-write_request_example =
    read_request-write_request no_flate no_flate-FlateLaws (one_value Request-discrete sent_request)
      (one_value-JsonLaws IsUtf8Request Request-discrete sent_request) request content empty_writer
      (record empty_writer { written = wire }) (refl, refl, refl, refl, refl, refl) request_written

read_response-write_response_example :
    (p : Encoded) × (sent : Bytes) × (wire ≡ [] ++ sent)
    × ((rest : Bytes)
        → read_response no_flate (one_value Response-discrete sent_response) (sent ++ rest)
          ≡ done (describe_response response p, content) rest)
unfolding continues
read_response-write_response_example =
    read_response-write_response no_flate no_flate-FlateLaws
      (one_value Response-discrete sent_response)
      (one_value-JsonLaws IsUtf8Response Response-discrete sent_response) response content
      empty_writer (record empty_writer { written = wire }) refl response_written

-- A header of length 0 and one that announces too much are refused.
read_json_refused :
    (read_json (one_value Request-discrete request) (0 ∷ 0 ∷ 0 ∷ 0 ∷ [])
      ≡ failed (invalid_header_length 0) [])
    × (read_json (one_value Request-discrete request) (0 ∷ 1 ∷ 0 ∷ 1 ∷ [])
        ≡ failed (invalid_header_length 65537) [])
unfolding read_json read_full get_uint32
read_json_refused = (refl, refl)

decode_payload_bounds_example : length content ≤ max_payload_bytes
unfolding decode_payload
decode_payload_bounds_example =
    decode_payload_bounds no_flate content (codes "flate") content (pos 3) max_payload_bytes
      (omega arith) refl

bomb :
    decode_payload no_flate content (codes "flate") (pos 1048577) max_payload_bytes
    ≡ err (invalid_raw_length (pos 1048577))
unfolding decode_payload
bomb = refl

decode_payload-encode_payload_example :
    decode_payload no_flate content [] (pos 0) max_payload_bytes ≡ ok content
unfolding encode_payload
decode_payload-encode_payload_example =
    decode_payload-encode_payload no_flate content (as_is content) max_payload_bytes
      no_flate-FlateLaws refl (omega arith)

abbrev attr : FileAttr
attr = record { mode = 420; size = 3; mod_time_ns = pos 5; inode = 1; uid = 0; gid = 0 }

abbrev entries : List DirEntry
entries =
    record { name = codes "x"; attr = attr; link_target = [] }
    ∷ record { name = codes "y"; attr = attr; link_target = [] }
    ∷ []

one_page :
    encode_dir_entry_pages (one_value entries-discrete entries) 3 entries
    ≡ some (ok (codes "{}" ∷ []))
unfolding encode_dir_entry_pages encode_page encode_dir_entries
one_page = ground (arith, one_value-marshal entries-discrete entries)

decode_pages-encode_dir_entry_pages_example :
    (decode_pages (one_value entries-discrete entries) (codes "{}" ∷ []) ≡ ok entries)
    × All (IsPage (one_value entries-discrete entries)) (codes "{}" ∷ [])
unfolding continues
decode_pages-encode_dir_entry_pages_example =
    decode_pages-encode_dir_entry_pages (one_value entries-discrete entries)
      (one_value-JsonLaws IsUtf8Listing entries-discrete entries) 3 entries (codes "{}" ∷ [])
      ((refl, refl), ((refl, refl), tt)) one_page
