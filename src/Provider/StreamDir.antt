-- ===== src/Provider/StreamDir.antt =====
-- pkg/provider/filesystem/directory.go and handleReadDir of pkg/provider/filesystem_handler.go: a listing is
-- sent page by page. The results of `directory.ReadDir(256)`, one after the other, are an argument; behind the
-- last it returns nothing and io.EOF. Audit lines are not modelled.
use colnk.Common.{
  suc, Bytes, [], ◌∷◌, List, Option, none, some, Bool, true, false, length, if◌then◌else◌, Result,
  ok, err, errno, Outcome, done, failed, Io, ◌>>=◌, ◌>>◌, pure, fail, lift,
}
use colnk.Common.Paths.{join_path}
use colnk.Protocol.Types.{DirEntry}
use colnk.Protocol.Frame.{Json}
use colnk.Protocol.Directory.{encode_dir_entry_pages}
use colnk.Provider.RemotePath.{clean_remote_path}
use colnk.Provider.FileService.{
  Os, FileInfo, ReadError, eof, read_error, is_special, is_link, file_attr, eoverflow,
}
use colnk.Provider.FileService.Names.{with_file}
use colnk.Provider.FileService.Operations.{readlink}

-- os.DirEntry: its name, and what `Info` answers.
pub record Found : Type 0 where
  pub name : Bytes
  pub info : Option FileInfo

-- A result of `directory.ReadDir`.
pub record Batch : Type 0 where
  pub found : List Found
  pub stopped : Option ReadError

-- `err` dropped, the string is "" then.
abbrev or_nothing : {S : Type 0} → Outcome S Bytes → Outcome S Bytes
or_nothing (done target s) = done target s
or_nothing (failed e s) = done [] s

-- `len(entries) == 0`
abbrev pub is_done : List Found → Bool
is_done [] = true
is_done (_ ∷ _) = false

-- `fuel` of the paging is the length of the listing and one.
abbrev paged : Option (Result (List Bytes)) → Result (List Bytes)
paged none = err (errno eoverflow)
paged (some (err e)) = err (errno eoverflow)
paged (some (ok pages)) = ok pages

module _ {S : Type 0} (yield : Bytes → Bool → Io S (Unit {0})) where
  unfoldable pub yield_pages : List Bytes → Io S (Unit {0})
  yield_pages [] = pure tt
  yield_pages (page ∷ pages) = yield page true >> yield_pages pages

module _ {S File : Type 0} (os : Os S File) (j : Json (List DirEntry))
    (yield : Bytes → Bool → Io S (Unit {0})) where
  -- `value.LinkTarget`
  unfoldable pub link_target : Bytes → FileInfo → Io S Bytes
  unfolding readlink
  link_target path info s = if is_link info.mode then or_nothing (readlink os path s) else done [] s

  -- The entries of a batch, without those that are gone or special.
  unfoldable pub listed : Bytes → List Found → Io S (List DirEntry)
  unfolding is_special file_attr link_target join_path
  listed name [] = pure []
  listed name (entry ∷ rest) =
      let others = listed name rest in
      elim entry.info [
        | none ↦ others
        | some info ↦ if is_special info.mode then others else (do
          target ← link_target (join_path name entry.name) info
          entries ← others
          pure
              (record { name = entry.name; attr = file_attr info; link_target = target } ∷ entries))
      ]

  -- The pages of a batch, sent.
  unfoldable pub send_batch : Bytes → List Found → Io S (Unit {0})
  unfolding listed encode_dir_entry_pages yield_pages
  send_batch name found = do
    entries ← listed name found
    pages ← lift (paged (encode_dir_entry_pages j (suc (length entries)) entries))
    yield_pages yield pages

  unfoldable pub stream_loop : Bytes → List Batch → Io S (Unit {0})
  unfolding send_batch
  stream_loop name [] = yield [] false
  stream_loop name (batch ∷ rest) =
      let next = stream_loop name rest in
      elim batch.stopped [
        | some (read_error e) ↦ fail e
        | some eof ↦ send_batch name batch.found >> yield [] false
        | none ↦
            send_batch name batch.found >> (if is_done batch.found then yield [] false else next)
      ]

  unfoldable pub stream_dir : Bytes → List Batch → Io S (Unit {0})
  unfolding clean_remote_path with_file stream_loop
  stream_dir remote_path batches = do
    name ← lift (clean_remote_path remote_path)
    directory ← os.open_directory name
    with_file os directory (stream_loop name batches)
