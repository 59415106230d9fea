-- ===== src/Provider/FileService/Operations.antt =====
-- pkg/provider/filesystem/mutation.go, read.go, write.go, symlink.go and service.go: the operations of the
-- file service, and which one a request runs. A file that an operation opens is closed at its end.
use colnk.Common.{
  ℕ, zero, suc, ◌*◌, Bytes, codes, bytes_beq, length, [], Option, none, some, Bool, ◌||◌, ltb, leb,
  if◌then◌else◌, ℤ, pos, negsuc, errno, Outcome, done, failed, Io, ◌>>=◌, ◌>>◌, pure, fail, fail_if,
  lift, ltb_ℤ, leb_ℤ,
}
use colnk.Protocol.Types.{Request, Response, max_payload_bytes, max_header_bytes}
use colnk.Provider.RemotePath.{clean_remote_path}
use colnk.Provider.Service.{einval, enosys}
use colnk.Provider.FileService.{
  Os, FileInfo, ReadError, eof, read_error, read_only, write_only, read_write, create_exclusive,
  perm, file_attr, plain_response, errno_of, enametoolong, state_of,
}
use colnk.Provider.FileService.Names.{
  with_file, reject_special, reject_special_if_present, open_regular, open_mutable, open_parent,
  stat, mutation_result,
}

-- The answer of an operation that tells nothing.
abbrev pub nothing : Response × Bytes
nothing = (plain_response none, [])

-- `if errors.Is(err, io.EOF) { err = nil }`
unfoldable pub read_result :
    {S : Type 0} → (Bytes × Option ReadError) × S → Outcome S (Response × Bytes)
read_result ((content, none), s) = done (plain_response none, content) s
read_result ((content, some eof), s) = done (plain_response none, content) s
read_result ((content, some (read_error e)), s) = failed e s

module _ {S File : Type 0} (os : Os S File) where
  -- The attributes of the open file as a response.
  unfoldable pub attr_response : File → Io S (Response × Bytes)
  unfolding file_attr
  attr_response file = do info ← os.fstat file; pure (plain_response (some (file_attr info)), [])

  -- The attributes as a response.
  unfoldable pub created : FileInfo → Response × Bytes
  unfolding file_attr
  created info = (plain_response (some (file_attr info)), [])

  -- `create` behind the opening: closing may fail, and then so does it.
  unfoldable pub finish_create : File → Io S (Response × Bytes)
  unfolding created
  finish_create file s = elim (os.fstat file s) [
    | failed e t ↦ failed e (state_of (os.close file t))
    | done info t ↦ (os.close file >>= λ _. pure (created info)) t
  ]

  unfoldable pub create : Bytes → ℕ → Io S (Response × Bytes)
  unfolding finish_create
  create name mode = do file ← os.open_file name create_exclusive (perm mode); finish_create file

  unfoldable pub rename : Bytes → Bytes → Io S (Response × Bytes)
  unfolding reject_special clean_remote_path reject_special_if_present open_parent with_file stat
  rename old_name new_remote_path = do
    reject_special os old_name
    new_name ← lift (clean_remote_path new_remote_path)
    reject_special_if_present os new_name
    old ← open_parent os old_name
    with_file os old.0 (do
      new ← open_parent os new_name
      with_file os new.0 (do os.renameat old.0 old.1 new.0 new.1; stat os new_name))

  unfoldable pub chmod : Bytes → ℕ → Io S (Unit {0})
  unfolding open_mutable with_file
  chmod name mode = do file ← open_mutable os name; with_file os file (os.chmod file (perm mode))

  unfoldable pub chtimes : Bytes → ℤ → Io S (Unit {0})
  unfolding open_mutable with_file
  chtimes name modified = do
    file ← open_mutable os name
    with_file os file (os.futimes file modified)

  unfoldable pub truncate : Bytes → ℤ → Io S (Unit {0})
  unfolding open_regular with_file
  truncate name size = do
    file ← open_regular os name write_only
    with_file os file (os.truncate file size)

  unfoldable pub remove : Bytes → Io S (Unit {0})
  unfolding reject_special
  remove name = do reject_special os name; os.remove name

  -- The size of a buffer, behind the test of the request.
  abbrev pub buffer_size : ℤ → ℕ
  buffer_size (pos n) = n
  buffer_size (negsuc n) = 0

  unfoldable pub read : Bytes → ℤ → ℤ → Io S (Response × Bytes)
  unfolding open_regular with_file read_result
  read name offset size = do
    fail_if (leb_ℤ size (pos 0) || ltb_ℤ (pos max_payload_bytes) size) (errno einval)
    file ← open_regular os name read_only
    with_file os file (λ s. read_result (os.read_at file (buffer_size size) offset s))

  -- `if setModTime` and `if syncData`
  abbrev pub do_if : Bool → Io S (Unit {0}) → Io S (Unit {0})
  do_if b m = if b then m else pure tt

  unfoldable pub write : Bytes → ℤ → Bytes → Bool → ℤ → Bool → Io S (Response × Bytes)
  unfolding open_regular with_file attr_response
  write name offset content set_mod_time mod_time_ns sync_data = do
    file ← open_regular os name write_only
    with_file os file (do
      os.write_at file content offset
      do_if set_mod_time (os.futimes file mod_time_ns)
      do_if sync_data (os.sync file)
      attr_response file)

  unfoldable pub sync : Bytes → Io S (Unit {0})
  unfolding open_regular with_file
  sync name = do file ← open_regular os name read_write; with_file os file (os.sync file)

  unfoldable pub symlink : Bytes → Bytes → Io S (Unit {0})
  unfolding open_parent with_file
  symlink name target = do
    parent ← open_parent os name
    with_file os parent.0 (os.symlinkat target parent.0 parent.1)

  -- The loop of readlink, with fuel: the buffer doubles up to the limit.
  unfoldable pub readlink_loop : ℕ → File → Bytes → ℕ → Io S Bytes
  readlink_loop zero directory base size = fail (errno enametoolong)
  readlink_loop (suc fuel) directory base size =
      let next = readlink_loop fuel directory base (size * 2) in
      if leb size max_header_bytes
      then (do
        target ← os.readlinkat directory base size
        (if ltb (length target) size then pure target else next))
      else fail (errno enametoolong)

  -- From 256 to 65536 there are nine buffers, and the tenth test ends the loop.
  unfoldable pub readlink : Bytes → Io S Bytes
  unfolding open_parent with_file readlink_loop
  readlink name = do
    parent ← open_parent os name
    with_file os parent.0 (readlink_loop 10 parent.0 parent.1 256)

  -- The cases of execute.
  unfoldable pub run_operation : Bytes → Request → Bytes → Io S (Response × Bytes)
  unfolding stat read write create mutation_result truncate remove rename symlink readlink chmod
      chtimes sync
  run_operation name request content =
      let is = bytes_beq request.operation in
      if is (codes "stat")
      then stat os name
      else if is (codes "read")
      then read name request.offset request.size
      else if is (codes "write")
      then write name request.offset content request.set_mod_time request.mod_time_ns request.sync
      else if is (codes "create")
      then create name request.mode
      else if is (codes "truncate")
      then mutation_result os name (truncate name request.offset)
      else if is (codes "mkdir")
      then mutation_result os name (os.mkdir name (perm request.mode))
      else if is (codes "remove")
      then (remove name >>= λ _. pure nothing)
      else if is (codes "rename")
      then rename name request.new_path
      else if is (codes "symlink")
      then mutation_result os name (symlink name request.target)
      else if is (codes "readlink")
      then (readlink name >>= λ target. pure (plain_response none, target))
      else if is (codes "chmod")
      then mutation_result os name (chmod name request.mode)
      else if is (codes "chtimes")
      then mutation_result os name (chtimes name request.mod_time_ns)
      else if is (codes "fsync")
      then (sync name >>= λ _. pure nothing)
      else fail (errno enosys)

  unfoldable pub execute : Request → Bytes → Io S (Response × Bytes)
  unfolding clean_remote_path run_operation
  execute request content = do
    name ← lift (clean_remote_path request.path)
    run_operation name request content

  unfoldable pub handle : Request → Bytes → S → (Response × Bytes) × S
  unfolding execute errno_of
  handle request content s = elim (execute request content s) [
    | done answer t ↦ (answer, t)
    | failed e t ↦ ((record (plain_response none) { error_code = pos (errno_of e) }, []), t)
  ]
