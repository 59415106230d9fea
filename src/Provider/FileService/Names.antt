-- ===== src/Provider/FileService/Names.antt =====
-- pkg/provider/filesystem/path.go, read.go and attributes.go: opening files by name, special files, stat.
use colnk.Common.{
  Bytes, bytes_beq, [], ◌∷◌, some, Bool, not, ◌&&◌, if◌then◌else◌, is_empty, trim_suffix, Error,
  errno, done, failed, Io, ◌>>=◌, ◌>>◌, pure, fail_if,
}
use colnk.Common.Paths.{slash, dot, path_split}
use colnk.Protocol.Types.{Response}
use colnk.Provider.RemotePath.{eperm}
use colnk.Provider.FileService.{
  Os, FileInfo, OpenFlags, read_only, is_regular, is_dir, is_special, file_attr, plain_response,
  is_not_exist, enotdir, state_of,
}

module _ {S File : Type 0} (os : Os S File) where
  -- `defer file.Close()`, or `_ = file.Close()` behind the code.
  unfoldable pub with_file : {A : Type 0} → File → Io S A → Io S A
  with_file file m s = elim (m s) [
    | done a t ↦ done a (state_of (os.close file t))
    | failed e t ↦ failed e (state_of (os.close file t))
  ]

  unfoldable pub reject_special : Bytes → Io S (Unit {0})
  unfolding is_special
  reject_special name = do info ← os.lstat name; fail_if (is_special info.mode) (errno eperm)

  unfoldable pub reject_special_if_present : Bytes → Io S (Unit {0})
  unfolding reject_special is_not_exist
  reject_special_if_present name s = elim (reject_special name s) [
    | done a t ↦ done a t
    | failed e t ↦ if is_not_exist e then done tt t else failed e t
  ]

  -- A handle that passes the test is kept, any other is closed.
  unfoldable pub keep_if : (FileInfo → Bool) → Error → File → Io S File
  keep_if good e file s = elim (os.fstat file s) [
    | failed e' t ↦ failed e' (state_of (os.close file t))
    | done info t ↦ if good info then done file t else failed e (state_of (os.close file t))
  ]

  unfoldable pub open_regular : Bytes → OpenFlags → Io S File
  unfolding keep_if
  open_regular name flags = do
    info ← os.stat name
    fail_if (not (is_regular info.mode)) (errno eperm)
    file ← os.open_file name flags 0
    keep_if (λ opened. is_regular opened.mode) (errno eperm) file

  unfoldable pub open_mutable : Bytes → Io S File
  open_mutable name = do
    info ← os.stat name
    fail_if (not (is_regular info.mode) && not (is_dir info.mode)) (errno eperm)
    os.open_file name read_only 0

  -- `filepath.Split` without the separator, and "." for no directory.
  unfoldable pub parent_name : Bytes → Bytes
  unfolding path_split trim_suffix
  parent_name name =
      let parent = trim_suffix (path_split name).0 (slash ∷ []) in
      if is_empty parent then dot else parent

  unfoldable pub open_parent : Bytes → Io S (File × Bytes)
  unfolding parent_name path_split keep_if
  open_parent name = do
    fail_if (bytes_beq name dot) (errno eperm)
    directory ← os.open_directory (parent_name name)
    kept ← keep_if (λ info. is_dir info.mode) (errno enotdir) directory
    pure (kept, (path_split name).1)

  unfoldable pub stat : Bytes → Io S (Response × Bytes)
  unfolding is_special file_attr
  stat name = do
    info ← os.lstat name
    fail_if (is_special info.mode) (errno eperm)
    pure (plain_response (some (file_attr info)), [])

  unfoldable pub mutation_result : Bytes → Io S (Unit {0}) → Io S (Response × Bytes)
  unfolding stat
  mutation_result name m = do m; stat name
