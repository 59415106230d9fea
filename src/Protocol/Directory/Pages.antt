-- ===== src/Protocol/Directory/Pages.antt =====
-- The pages of a listing (pkg/protocol/directory.go): fuel, sizes and decoding.
use mathlib.Core.Path.{subst}
use colnk.Common.{
  Result-cases, sym, ℕ, zero, suc, ◌/◌, ◌≤◌, ◌<◌, ◌≡◌, ◌≢◌, refl, Bytes, List, [], ◌∷◌, ◌++◌,
  Option, none, some, length, take, drop, All, All-append, All-take, All-drop, length-take,
  length-drop, take-append-drop, append_assoc, append-nil, Option-cases, inl, inr, Result, ok, err,
  arith, bind-eq-ok,
}
use colnk.Protocol.Texts.{IsUtf8Entry, IsUtf8Listing}
use colnk.Protocol.Types.{DirEntry, directory_page_payload_bytes}
use colnk.Protocol.Frame.{Json, JsonLaws}
use colnk.Protocol.Directory.{
  encode_dir_entries, encode_page, append_pages, encode_dir_entry_pages, decode_dir_entries,
  decode_pages,
}

append_pages-ne-none :
    (l r : Option (Result (List Bytes))) → l ≢ none → r ≢ none → append_pages l r ≢ none
append_pages-ne-none none r a b = λ _. a refl
append_pages-ne-none (some (err e)) r a b = λ h. cc
append_pages-ne-none (some (ok x)) none a b = λ _. b refl
append_pages-ne-none (some (ok x)) (some (err e)) a b = λ h. cc
append_pages-ne-none (some (ok x)) (some (ok y)) a b = λ h. cc

append_pages-eq-ok :
    (l r : Option (Result (List Bytes))) (pages : List Bytes)
    → append_pages l r ≡ some (ok pages)
    → (x : List Bytes) × (y : List Bytes) × (l ≡ some (ok x)) × (r ≡ some (ok y)) × (pages ≡ x ++ y)
append_pages-eq-ok none r pages h = cc
append_pages-eq-ok (some (err e)) r pages h = cc
append_pages-eq-ok (some (ok x)) none pages h = cc
append_pages-eq-ok (some (ok x)) (some (err e)) pages h = cc
append_pages-eq-ok (some (ok x)) (some (ok y)) pages h = (x, y, refl, refl, cc)

module _ (j : Json (List DirEntry)) where
  -- One more round than there are entries is always enough.
  pub encode_dir_entry_pages-ne-none :
      (fuel : ℕ) (entries : List DirEntry)
      → length entries < fuel
      → encode_dir_entry_pages j fuel entries ≢ none
  unfolding encode_dir_entry_pages
  encode_dir_entry_pages-ne-none zero entries h = elim h [ ]
  encode_dir_entry_pages-ne-none (suc fuel) [] h = λ e. cc
  encode_dir_entry_pages-ne-none (suc fuel) (entry ∷ rest) h =
      let es = entry ∷ rest in
      let middle = length es / 2 in
      ground (
        arith,
        length-take middle es,
        length-drop middle es,
        encode_dir_entry_pages-ne-none fuel (take middle es),
        encode_dir_entry_pages-ne-none fuel (drop middle es),
        append_pages-ne-none (encode_dir_entry_pages j fuel (take middle es))
            (encode_dir_entry_pages j fuel (drop middle es)),
      )

  -- Every page has at most `DirectoryPagePayloadBytes` bytes and, with the laws of JSON, at least one.
  abbrev pub IsPage : Bytes → Type 0
  IsPage page = (0 < length page) × (length page ≤ directory_page_payload_bytes)

  decode_pages-append :
      (x y : List Bytes) (a b : List DirEntry)
      → decode_pages j x ≡ ok a
      → decode_pages j y ≡ ok b
      → decode_pages j (x ++ y) ≡ ok (a ++ b)
  unfolding decode_pages
  decode_pages-append [] y a b h k = ground arith
  decode_pages-append (page ∷ x) y a b h k =
      let (es, d, h') = bind-eq-ok (decode_dir_entries j page) _ h in
      let (rest, r, e) = bind-eq-ok (decode_pages j x) _ h' in
      ground (arith, decode_pages-append x y rest b r k, append_assoc es rest b)

  decode_pages_one :
      (page : Bytes) (es : List DirEntry)
      → decode_dir_entries j page ≡ ok es
      → decode_pages j (page ∷ []) ≡ ok es
  unfolding decode_pages
  decode_pages_one page es h = ground (arith, append-nil es)

  module _ (json : JsonLaws IsUtf8Listing j) where
    encode_page-decode :
        (es : List DirEntry) (page : Bytes)
        → IsUtf8Listing es
        → encode_page j es ≡ ok page
        → (decode_dir_entries j page ≡ ok es) × IsPage page
    unfolding encode_page encode_dir_entries decode_dir_entries
    encode_page-decode es page u h = elim (Option-cases (j.marshal es)) [
      | inl e ↦ ground arith
      | inr (d, e) ↦ ground (arith, json.nonempty es d e, json.unmarshal-marshal es d u e)
    ]

    -- The pages decode, in order, to the entries that were encoded, if the names and link targets of these are
    -- valid UTF-8; every page has a byte and at most `DirectoryPagePayloadBytes` of them.
    pub decode_pages-encode_dir_entry_pages :
        (fuel : ℕ) (entries : List DirEntry) (pages : List Bytes)
        → IsUtf8Listing entries
        → encode_dir_entry_pages j fuel entries ≡ some (ok pages)
        → (decode_pages j pages ≡ ok entries) × All IsPage pages
    unfolding encode_dir_entry_pages
    decode_pages-encode_dir_entry_pages zero entries pages u h = cc
    decode_pages-encode_dir_entry_pages (suc fuel) [] pages u h =
        unfold decode_pages in ground arith
    decode_pages-encode_dir_entry_pages (suc fuel) (entry ∷ rest) pages u h =
        let es = entry ∷ rest in
        let middle = length es / 2 in
        let Good : List Bytes → Type 0 = λ ps. (decode_pages j ps ≡ ok es) × All IsPage ps in
        elim (Result-cases (encode_page j es)) [
          | inl (page, e) ↦
              let (decoded, sized) = encode_page-decode es page u e in
              let one : page ∷ [] ≡ pages = ground arith in
              subst Good one (decode_pages_one page es decoded, (sized, tt))
          | inr (error, e) ↦
              let halves : append_pages (encode_dir_entry_pages j fuel (take middle es))
                    (encode_dir_entry_pages j fuel (drop middle es))
                  ≡ some (ok pages) =
                ground arith in
              let (x, y, l, r, joined) = append_pages-eq-ok _ _ pages halves in
              let (dl, sl) =
                decode_pages-encode_dir_entry_pages fuel (take middle es) x
                  (All-take IsUtf8Entry middle es u) l in
              let (dr, sr) =
                decode_pages-encode_dir_entry_pages fuel (drop middle es) y
                  (All-drop IsUtf8Entry middle es u) r in
              subst Good (sym joined) (
                rw (decode_pages-append x y _ _ dl dr, take-append-drop middle es) refl,
                All-append IsPage x y sl sr,
              )
        ]
