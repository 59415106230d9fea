-- ===== src/Tests/ServiceTests.antt =====
-- The service of the client at concrete inputs.
use colnk.Common.{◌≡◌, ◌+◌, ◌≤◌, refl, codes, length, [], done, pos, false}
use colnk.Protocol.Types.{Request, kind_file, max_payload_bytes}
use colnk.Protocol.Frame.{Json, read_full}
use colnk.Protocol.Message.{read_request_payload}
use colnk.Protocol.Payload.{decode_payload, read_payload}
use colnk.Provider.NetworkHandler.{Slots}
use colnk.Provider.Service.{
  begin_file, weighed, max_in_flight_file_bytes, handle_stream, refuse, einval,
}
use colnk.Provider.Service.Weight.{read_request_payload-weight}
use colnk.Tests.Codecs.{one_value, Request-discrete, no_flate}

abbrev request : Request
request = record {
  kind = kind_file;
  operation = codes "write";
  path = codes "a";
  new_path = [];
  target = [];
  offset = pos 0;
  size = pos 0;
  mode = 0;
  mod_time_ns = pos 0;
  set_mod_time = false;
  sync = false;
  data_length = pos 2;
  data_encoding = [];
  raw_data_length = pos 0;
}

abbrev json : Json Request
json = one_value Request-discrete request

abbrev idle : Slots
idle = record { used = 0; capacity = 32 }

dispatched : handle_stream (record request { kind = codes "tcp" }) ≡ refuse einval
unfolding handle_stream
dispatched = refl

begun :
    begin_file request idle ≡ (weighed (2 + max_payload_bytes), record { used = 1; capacity = 32 })
unfolding begin_file
begun = refl

payload_read :
    read_request_payload no_flate json request (codes "abc") ≡ done (codes "ab") (codes "c")
unfolding read_request_payload decode_payload read_payload read_full
payload_read = refl

read_request_payload-weight_example :
    (length (codes "ab") + max_payload_bytes ≤ 2 + max_payload_bytes)
    × (2 + max_payload_bytes ≤ max_in_flight_file_bytes)
read_request_payload-weight_example =
    read_request_payload-weight no_flate json request idle (record { used = 1; capacity = 32 })
      (2 + max_payload_bytes) (codes "abc") (codes "ab") (codes "c") begun payload_read
