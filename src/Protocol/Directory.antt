-- ===== src/Protocol/Directory.antt =====
-- pkg/protocol/directory.go. A page of entries is halved until it fits: the recursion takes fuel, and
-- `none` means that it ran out.
pub mod Pages
use colnk.Common.{
  ℕ, zero, suc, ◌/◌, ◌<◌, Bytes, List, [], ◌∷◌, ◌++◌, Option, none, some, length, take, drop, ltb,
  leb, nat_beq, if◌then◌else◌, Result, ok, err, bind, or_error, marshal_failed, decode_failed,
  entries_too_large, entry_too_large,
}
use colnk.Protocol.Types.{DirEntry, max_response_payload_bytes, directory_page_payload_bytes}
use colnk.Protocol.Frame.{Json}

-- `append(left, right...)`, an error of the left half first.
abbrev pub append_pages :
    Option (Result (List Bytes)) → Option (Result (List Bytes)) → Option (Result (List Bytes))
append_pages none r = none
append_pages (some (err e)) r = some (err e)
append_pages (some (ok left)) none = none
append_pages (some (ok left)) (some (err e)) = some (err e)
append_pages (some (ok left)) (some (ok right)) = some (ok (left ++ right))

module _ (j : Json (List DirEntry)) where
  unfoldable pub encode_dir_entries : List DirEntry → Result Bytes
  encode_dir_entries entries = bind (or_error (j.marshal entries) marshal_failed) (λ page.
      if ltb max_response_payload_bytes (length page) then err entries_too_large else ok page)

  -- The entries as one page, or the error that a single entry is refused with.
  unfoldable pub encode_page : List DirEntry → Result Bytes
  encode_page entries = bind (encode_dir_entries entries) (λ page.
      if leb (length page) directory_page_payload_bytes then ok page else err entry_too_large)

  unfoldable pub encode_dir_entry_pages : ℕ → List DirEntry → Option (Result (List Bytes))
  encode_dir_entry_pages zero entries = none
  encode_dir_entry_pages (suc fuel) [] = some (ok [])
  encode_dir_entry_pages (suc fuel) (entry ∷ rest) =
      let middle = length (entry ∷ rest) / 2 in
      let halves =
        append_pages (encode_dir_entry_pages fuel (take middle (entry ∷ rest)))
          (encode_dir_entry_pages fuel (drop middle (entry ∷ rest))) in
      elim (encode_page (entry ∷ rest)) [
        | ok page ↦ some (ok (page ∷ []))
        | err e ↦ if nat_beq (length (entry ∷ rest)) 1 then some (err e) else halves
      ]

  unfoldable pub decode_dir_entries : Bytes → Result (List DirEntry)
  decode_dir_entries page = or_error (j.unmarshal page) decode_failed

  -- The loop of `ReadDir` (pkg/agent/remote/filesystem.go) over the pages that arrive.
  unfoldable pub decode_pages : List Bytes → Result (List DirEntry)
  unfolding decode_dir_entries
  decode_pages [] = ok []
  decode_pages (page ∷ pages) =
      bind (decode_dir_entries page)
        (λ entries. bind (decode_pages pages) (λ rest. ok (entries ++ rest)))
