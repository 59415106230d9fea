-- ===== src/Provider/FileService/Handles/Operations.antt =====
-- The files that the operations of pkg/provider/filesystem open and close.
use colnk.Common.{
  [], ℕ, zero, suc, ◌+◌, ◌*◌, ◌≡◌, Bytes, Bool, leb, ltb, length, Option, none, some, ℤ, Outcome,
  done, failed, ◌>>=◌, pure, Ends, Always, pos, ◌∙◌, arith,
}
use colnk.Protocol.Types.{Request, Response, max_header_bytes}
use colnk.Provider.FileService.{
  Os, FileInfo, ReadError, eof, read_error, state_of, plain_response, errno_of,
}
use colnk.Provider.FileService.Operations.{
  read_result, attr_response, created, finish_create, create, rename, chmod, chtimes, truncate,
  remove, read, write, sync, symlink, readlink_loop, readlink, run_operation, execute, handle,
}
use colnk.Provider.FileService.Handles.{
  Moves, IsCounted, bind-Moves, same-Moves, pure-Moves, fail-Moves, if-Moves, balance,
}
use colnk.Provider.FileService.Handles.Names.{opening, state_of-closed, plus_one}

module _ {S File : Type 0} (opens : S → ℕ) (os : Os S File) (counted : IsCounted opens os) where
  attr_response-Moves : (a : ℕ) (file : File) → Moves opens a a a (attr_response os file)
  unfolding attr_response
  attr_response-Moves a file = search (balance, counted.fstat_same)

  closed-Moves : (a : ℕ) (file : File) → Moves opens (a + 1) a a (os.close file)
  closed-Moves a file = record {
    moves = λ n s e.
        go n (os.close file s) (counted.closed (n + a) file s (e ∙ plus_one opens os counted n a));
  }
    where
      go :
          (n : ℕ) (o : Outcome S (Unit {0}))
          → Always (λ t. opens t ≡ n + a) o
          → Ends (λ _ t. opens t ≡ n + a) (λ t. opens t ≡ n + a) o
      go n (done x t) h = h
      go n (failed x t) h = h

  finish_create-Moves : (a : ℕ) (file : File) → Moves opens (a + 1) a a (finish_create os file)
  unfolding finish_create
  finish_create-Moves a file = record {
    moves = λ n s e. go n (os.fstat file s) ((counted.fstat_same (a + 1) file).moves n s e);
  }
    where
      answered :
          (answer : Response × Bytes) → Moves opens (a + 1) a a (os.close file >>= λ _. pure answer)
      answered answer = bind-Moves opens _ _ (closed-Moves a file) (λ _. pure-Moves opens answer)

      go :
          (n : ℕ) (o : Outcome S FileInfo)
          → Ends (λ _ t. opens t ≡ n + (a + 1)) (λ t. opens t ≡ n + (a + 1)) o
          → Ends
              (λ (_ : Response × Bytes) t. opens t ≡ n + a)
              (λ t. opens t ≡ n + a)
              (elim o [
                | failed e t ↦ failed e (state_of (os.close file t))
                | done info t ↦ (os.close file >>= λ _. pure (created os info)) t
              ])
      go n (failed x t) k =
          state_of-closed opens os counted (n + a) file t (k ∙ plus_one opens os counted n a)
      go n (done info t) k = (answered (created os info)).moves n t k

  create-Moves : (a : ℕ) (name : Bytes) (mode : ℕ) → Moves opens a a a (create os name mode)
  unfolding create
  create-Moves a name mode = search (balance, counted.opened, finish_create-Moves)

  rename-Moves :
      (a : ℕ) (old_name new_path : Bytes) → Moves opens a a a (rename os old_name new_path)
  unfolding rename
  rename-Moves a old_name new_path = search (balance, opening, counted.renameat_same) depth 16

  chmod-Moves : (a : ℕ) (name : Bytes) (mode : ℕ) → Moves opens a a a (chmod os name mode)
  unfolding chmod
  chmod-Moves a name mode = search (balance, opening, counted.chmod_same)

  chtimes-Moves : (a : ℕ) (name : Bytes) (t : ℤ) → Moves opens a a a (chtimes os name t)
  unfolding chtimes
  chtimes-Moves a name t = search (balance, opening, counted.futimes_same)

  truncate-Moves : (a : ℕ) (name : Bytes) (size : ℤ) → Moves opens a a a (truncate os name size)
  unfolding truncate
  truncate-Moves a name size = search (balance, opening, counted.truncate_same)

  remove-Moves : (a : ℕ) (name : Bytes) → Moves opens a a a (remove os name)
  unfolding remove
  remove-Moves a name = search (balance, opening, counted.remove_same)

  read_result-Moves :
      (a : ℕ) (file : File) (size : ℕ) (offset : ℤ)
      → Moves opens a a a (λ s. read_result (os.read_at file size offset s))
  unfolding read_result
  read_result-Moves a file size offset = record {
    moves =
        λ n s e. go n (os.read_at file size offset s) (counted.read_at_same file size offset s ∙ e);
  }
    where
      go :
          (n : ℕ) (r : (Bytes × Option ReadError) × S)
          → opens r.1 ≡ n + a
          → Ends (λ _ t. opens t ≡ n + a) (λ t. opens t ≡ n + a) (read_result r)
      go n ((content, none), t) h = h
      go n ((content, some eof), t) h = h
      go n ((content, some (read_error x)), t) h = h

  read-Moves :
      (a : ℕ) (name : Bytes) (offset size : ℤ) → Moves opens a a a (read os name offset size)
  unfolding read
  read-Moves a name offset size = search (balance, opening, read_result-Moves)

  write-Moves :
      (a : ℕ) (name : Bytes) (offset : ℤ) (content : Bytes) (set_mod_time : Bool) (t : ℤ)
      (sync_data : Bool)
      → Moves opens a a a (write os name offset content set_mod_time t sync_data)
  unfolding write
  write-Moves a name offset content set_mod_time t sync_data =
      search
        (
          balance, opening, counted.write_at_same, counted.futimes_same, counted.sync_same,
          attr_response-Moves,
        )
        depth 14

  sync-Moves : (a : ℕ) (name : Bytes) → Moves opens a a a (sync os name)
  unfolding sync
  sync-Moves a name = search (balance, opening, counted.sync_same)

  symlink-Moves : (a : ℕ) (name target : Bytes) → Moves opens a a a (symlink os name target)
  unfolding symlink
  symlink-Moves a name target = search (balance, opening, counted.symlinkat_same)

  readlink_loop-Moves :
      (a fuel : ℕ) (directory : File) (base : Bytes) (size : ℕ)
      → Moves opens a a a (readlink_loop os fuel directory base size)
  unfolding readlink_loop
  readlink_loop-Moves a zero directory base size = search balance
  readlink_loop-Moves a (suc fuel) directory base size =
      if-Moves opens (leb size max_header_bytes) _ _
        (same-Moves opens _ _ (counted.readlinkat_same a directory base size) λ target.
          if-Moves opens (ltb (length target) size) _ _ (pure-Moves opens target)
            (readlink_loop-Moves a fuel directory base (size * 2)))
        (fail-Moves opens _)

  readlink-Moves : (a : ℕ) (name : Bytes) → Moves opens a a a (readlink os name)
  unfolding readlink
  readlink-Moves a name = search (balance, opening, readlink_loop-Moves)

  run_operation-Moves :
      (a : ℕ) (name : Bytes) (request : Request) (content : Bytes)
      → Moves opens a a a (run_operation os name request content)
  unfolding run_operation
  run_operation-Moves a name request content =
      search
        (
          balance, opening, create-Moves, rename-Moves, chmod-Moves, chtimes-Moves, truncate-Moves,
          remove-Moves, read-Moves, write-Moves, sync-Moves, symlink-Moves, readlink-Moves,
          counted.mkdir_same,
        )
        depth 24 fits 4000

  execute-Moves :
      (a : ℕ) (request : Request) (content : Bytes) → Moves opens a a a (execute os request content)
  unfolding execute
  execute-Moves a request content = search (balance, run_operation-Moves)

  -- Whatever is asked for and whatever fails: when Handle returns, as many files are open as before it.
  pub handle-opens :
      (request : Request) (content : Bytes) (s : S)
      → opens (handle os request content s).1 ≡ opens s
  unfolding handle
  handle-opens request content s =
      go (execute os request content s)
        ((execute-Moves 0 request content).moves (opens s) s (omega arith))
    where
      go :
          (o : Outcome S (Response × Bytes))
          → Ends (λ _ t. opens t ≡ opens s + 0) (λ t. opens t ≡ opens s + 0) o
          → opens
              (elim o as (λ _. (Response × Bytes) × S) [
                | done answer t ↦ (answer, t)
                | failed e t ↦
                    ((record (plain_response none) { error_code = pos (errno_of e) }, []), t)
              ]).1
            ≡ opens s
      go (done answer t) h = omega (arith, h)
      go (failed e t) h = omega (arith, h)
