-- ===== src/Agent/Remote/Listing.antt =====
-- A listing from one end to the other: the pages that pkg/provider/filesystem_handler.go writes, read by ReadDir
-- of pkg/agent/remote/filesystem.go.
use colnk.Common.{
  ℕ, suc, ◌+◌, ◌-◌, ◌<◌, ◌≡◌, refl, Bytes, [], ◌∷◌, ◌++◌, List, All, none, true, false, Bool,
  length, pos, ok, done, Io, ◌>>◌, some, append_assoc, append-nil, >>=-eq-done, >>=-done,
  bind-eq-ok, lift, arith, ap, ◌∙◌,
}
use colnk.Common.Utf8.{IsUtf8, continues}
use colnk.Protocol.Texts.{IsUtf8Response, IsUtf8Listing}
use colnk.Protocol.Types.{DirEntry, Response}
use colnk.Protocol.Frame.{Json, JsonLaws, Writer}
use colnk.Protocol.Payload.{Flate, FlateLaws}
use colnk.Protocol.Message.{write_response, read_response}
use colnk.Protocol.Message.RoundTrip.{read_response-write_response}
use colnk.Protocol.Directory.{decode_dir_entries, decode_pages, encode_dir_entry_pages}
use colnk.Protocol.Directory.Pages.{IsPage, decode_pages-encode_dir_entry_pages}
use colnk.Provider.FileService.{plain_response}
use colnk.Provider.StreamDir.{yield_pages}
use colnk.Agent.Remote.{page_entries, read_pages, check_code}

-- The callback of handleReadDir.
abbrev pub send_page : Flate → Json Response → Bytes → Bool → Io Writer (Unit {0})
send_page f responses page more =
    write_response f responses (record (plain_response none) { more = more }) page

module _ (f : Flate) (flate : FlateLaws f) (responses : Json Response)
    (json : JsonLaws IsUtf8Response responses) (entries : Json (List DirEntry)) where
  -- A response that was read with no error, and the round that it takes.
  round_more :
      (fuel : ℕ) (listed page_listed : List DirEntry) (response : Response)
      (page incoming rest : Bytes)
      → read_response f responses incoming ≡ done (response, page) rest
      → response.error_code ≡ pos 0
      → response.more ≡ true
      → page_entries f responses entries page ≡ ok page_listed
      → read_pages f responses entries (suc fuel) listed incoming
        ≡ read_pages f responses entries fuel (listed ++ page_listed) rest
  unfolding read_pages check_code
  round_more fuel listed page_listed response page incoming rest h code more decoded =
      let checked : check_code response rest ≡ done tt rest = rw (check_code, code) refl in
      let lifted : lift (page_entries f responses entries page) rest ≡ done page_listed rest =
        rw decoded refl in
      >>=-done (read_response f responses) _ incoming h
      ∙ >>=-done (check_code response) _ rest checked
      ∙ >>=-done (lift (page_entries f responses entries page)) _ rest lifted
      ∙ rw more refl

  round_last :
      (fuel : ℕ) (listed page_listed : List DirEntry) (response : Response)
      (page incoming rest : Bytes)
      → read_response f responses incoming ≡ done (response, page) rest
      → response.error_code ≡ pos 0
      → response.more ≡ false
      → page_entries f responses entries page ≡ ok page_listed
      → read_pages f responses entries (suc fuel) listed incoming
        ≡ done (listed ++ page_listed) rest
  unfolding read_pages check_code
  round_last fuel listed page_listed response page incoming rest h code more decoded =
      let checked : check_code response rest ≡ done tt rest = rw (check_code, code) refl in
      let lifted : lift (page_entries f responses entries page) rest ≡ done page_listed rest =
        rw decoded refl in
      >>=-done (read_response f responses) _ incoming h
      ∙ >>=-done (check_code response) _ rest checked
      ∙ >>=-done (lift (page_entries f responses entries page)) _ rest lifted
      ∙ rw more refl

  nonempty_page :
      (page : Bytes)
      → 0 < length page
      → page_entries f responses entries page ≡ decode_dir_entries entries page
  unfolding page_entries
  nonempty_page [] h = ground arith
  nonempty_page (c ∷ page) h = refl

  pages_nonempty :
      (pages : List Bytes) → All (IsPage entries) pages → All (λ page. 0 < length page) pages
  pages_nonempty [] a = tt
  pages_nonempty (page ∷ pages) a = (a.0.0, pages_nonempty pages a.1)

  no_text : IsUtf8 []
  unfolding continues
  no_text = refl

  no_entries : page_entries f responses entries [] ≡ ok []
  unfolding page_entries
  no_entries = refl

  read_pages-yield_pages :
      (pages : List Bytes) (es : List DirEntry) (w w' : Writer)
      → yield_pages (send_page f responses) pages w ≡ done tt w'
      → decode_pages entries pages ≡ ok es
      → All (λ page. 0 < length page) pages
      → (sent : Bytes) × (w'.written ≡ w.written ++ sent)
        × ((fuel : ℕ) (listed : List DirEntry) (rest : Bytes)
            → read_pages f responses entries (length pages + fuel) listed (sent ++ rest)
              ≡ read_pages f responses entries fuel (listed ++ es) rest)
  unfolding yield_pages decode_pages
  read_pages-yield_pages [] es w w' h d a = (
    [],
    cc (h, append-nil w.written),
    λ fuel listed rest.
        let same : 0 + fuel ≡ fuel = omega arith in
        let all : listed ≡ listed ++ es = cc (d, append-nil listed) in
        rw same (ap (λ l. read_pages f responses entries fuel l rest) all),
  )
  read_pages-yield_pages (page ∷ pages) es w w' h d a =
      let (_, w₁, first, h₁) = >>=-eq-done (send_page f responses page true) _ w h in
      let (e₁, d₁, d') = bind-eq-ok (decode_dir_entries entries page) _ d in
      let (e₂, d₂, joined) = bind-eq-ok (decode_pages entries pages) _ d' in
      let (p, sent₁, out₁, read₁) =
        read_response-write_response f flate responses json _ page w w₁ no_text first in
      let (sent₂, out₂, read₂) = read_pages-yield_pages pages e₂ w₁ w' h₁ d₂ a.1 in
      (
        sent₁ ++ sent₂,
        cc (out₁, out₂, append_assoc w.written sent₁ sent₂),
        λ fuel listed rest.
            let count : suc (length pages) + fuel ≡ suc (length pages + fuel) = omega arith in
            let all : (listed ++ e₁) ++ e₂ ≡ listed ++ es =
              cc (joined, append_assoc listed e₁ e₂) in
            rw (append_assoc sent₁ sent₂ rest, count)
              (round_more (length pages + fuel) listed e₁ _ page _ (sent₂ ++ rest)
                  (read₁ (sent₂ ++ rest)) refl refl (nonempty_page page a.0 ∙ d₁)
                ∙ read₂ fuel (listed ++ e₁) rest
                ∙ ap (λ l. read_pages f responses entries fuel l rest) all),
      )

  -- What handleReadDir writes for a listing, page by page and with the last response behind them, ReadDir reads
  -- back as that listing, with a round for each page and one more, whatever stands behind it, if its names and link
  -- targets are valid UTF-8.
  pub read_pages-send :
      (bound : ℕ) (es : List DirEntry) (pages : List Bytes) (w w' : Writer)
      → IsUtf8Listing es
      → encode_dir_entry_pages entries bound es ≡ some (ok pages)
      → JsonLaws IsUtf8Listing entries
      → (yield_pages (send_page f responses) pages >> send_page f responses [] false) w ≡ done tt w'
      → (sent : Bytes) × (w'.written ≡ w.written ++ sent)
        × ((fuel : ℕ) (rest : Bytes)
            → length pages < fuel
            → read_pages f responses entries fuel [] (sent ++ rest) ≡ done es rest)
  read_pages-send bound es pages w w' texts encoded laws h =
      let (_, w₁, paged, last) = >>=-eq-done (yield_pages (send_page f responses) pages) _ w h in
      let (decoded, sized) =
        decode_pages-encode_dir_entry_pages entries laws bound es pages texts encoded in
      let (sent₁, out₁, read₁) =
        read_pages-yield_pages pages es w w₁ paged decoded (pages_nonempty pages sized) in
      let (p, sent₂, out₂, read₂) =
        read_response-write_response f flate responses json _ [] w₁ w' no_text last in
      (
        sent₁ ++ sent₂,
        cc (out₁, out₂, append_assoc w.written sent₁ sent₂),
        λ fuel rest enough.
            let more = fuel - length pages - 1 in
            let count : fuel ≡ length pages + suc more = omega arith in
            rw (append_assoc sent₁ sent₂ rest, count)
              (read₁ (suc more) [] (sent₂ ++ rest)
                ∙ round_last more es [] _ [] _ rest (read₂ rest) refl refl no_entries
                ∙ ap (λ l. done l rest) (append-nil es)),
      )
