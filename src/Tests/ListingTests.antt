-- ===== src/Tests/ListingTests.antt =====
-- A listing from the provider to the agent at a concrete input.
use mathlib.Core.Logic.{ite, if_pos, if_neg}
use colnk.Common.{
  ◌∙◌, ℕ, ◌<◌, ◌≡◌, refl, Bytes, bytes_beq, codes, [], ◌∷◌, ◌++◌, List, none, some, true, false,
  pos, ok, done, ◌>>◌, if◌then◌else◌, arith,
}
use colnk.Common.Utf8.{continues}
use colnk.Protocol.Texts.{IsUtf8Response, IsUtf8Listing}
use colnk.Protocol.Types.{DirEntry, FileAttr, Response}
use colnk.Protocol.Frame.{Json, JsonLaws, Writer, write_json, write_bytes, put_uint32}
use colnk.Protocol.Payload.{encode_payload, write_payload, as_is}
use colnk.Protocol.Message.{write_response, describe_response}
use colnk.Protocol.Directory.{encode_dir_entry_pages, encode_page, encode_dir_entries}
use colnk.Provider.FileService.{plain_response}
use colnk.Provider.StreamDir.{yield_pages}
use colnk.Agent.Remote.{read_pages}
use colnk.Agent.Remote.Listing.{send_page, read_pages-send}
use colnk.Tests.Codecs.{
  one_value, one_value-JsonLaws, one_value-marshal, Response-discrete, entries-discrete, no_flate,
  no_flate-FlateLaws,
}

-- A codec that knows two values.
abbrev two_values : {A : Type 0} → Discrete A → A → A → Json A
two_values dec u v = record {
  marshal = λ w. ite (dec w u) (some (codes "{0}")) (ite (dec w v) (some (codes "{1}")) none);
  unmarshal = λ d.
      if bytes_beq d (codes "{0}")
      then some u
      else if bytes_beq d (codes "{1}")
      then some v
      else none;
}

two_values-JsonLaws :
    {A : Type 0} (IsPassed : A → Type 0) (dec : Discrete A) (u v : A)
    → JsonLaws IsPassed (two_values dec u v)
two_values-JsonLaws IsPassed dec u v = record {
  nonempty = λ w d h. ground arith;
  unmarshal-marshal = λ w d q h. ground (arith, h);
}

abbrev page_response : Response
page_response =
    describe_response (record (plain_response none) { more = true }) (as_is (codes "{}"))

abbrev last_response : Response
last_response = describe_response (plain_response none) (as_is [])

abbrev responses : Json Response
responses = two_values Response-discrete page_response last_response

abbrev attr : FileAttr
attr = record { mode = 420; size = 3; mod_time_ns = pos 5; inode = 1; uid = 0; gid = 0 }

abbrev entries : List DirEntry
entries = record { name = codes "x"; attr = attr; link_target = [] } ∷ []

one_page :
    encode_dir_entry_pages (one_value entries-discrete entries) 2 entries
    ≡ some (ok (codes "{}" ∷ []))
unfolding encode_dir_entry_pages encode_page encode_dir_entries
one_page = ground (arith, one_value-marshal entries-discrete entries)

abbrev empty_writer : Writer
empty_writer = record { written = []; breaks_after = 100 }

abbrev wire : Bytes
wire = (0 ∷ 0 ∷ 0 ∷ 3 ∷ codes "{0}{}") ++ (0 ∷ 0 ∷ 0 ∷ 3 ∷ codes "{1}")

marshal_page : responses.marshal page_response ≡ some (codes "{0}")
marshal_page = if_pos (Response-discrete page_response page_response) refl _ _

marshal_last : responses.marshal last_response ≡ some (codes "{1}")
marshal_last =
    if_neg (Response-discrete last_response page_response) (λ e. cc) _ _
    ∙ if_pos (Response-discrete last_response last_response) refl _ _

sent_all :
    (yield_pages (send_page no_flate responses) (codes "{}" ∷ [])
        >> send_page no_flate responses [] false)
      empty_writer
    ≡ done tt (record empty_writer { written = wire })
unfolding yield_pages write_response encode_payload write_json write_bytes write_payload put_uint32
sent_all = ground (arith, marshal_page, marshal_last)

read_pages-send_example :
    (sent : Bytes) × (wire ≡ [] ++ sent)
    × ((fuel : ℕ) (rest : Bytes)
        → 1 < fuel
        → read_pages no_flate responses (one_value entries-discrete entries) fuel [] (sent ++ rest)
          ≡ done entries rest)
unfolding continues
read_pages-send_example =
    read_pages-send no_flate no_flate-FlateLaws responses
      (two_values-JsonLaws IsUtf8Response Response-discrete page_response last_response)
      (one_value entries-discrete entries) 2 entries (codes "{}" ∷ []) empty_writer
      (record empty_writer { written = wire }) ((refl, refl), tt) one_page
      (one_value-JsonLaws IsUtf8Listing entries-discrete entries) sent_all
