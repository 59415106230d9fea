-- ===== src/Provider/FileService/Handles.antt =====
-- How many files the code of pkg/provider/filesystem has open.
pub mod Names
pub mod Operations
use colnk.Common.{
  ℕ, zero, suc, ◌+◌, ◌*◌, ◌≡◌, refl, Bytes, Bool, true, false, Bool-cases, inl, inr, if◌then◌else◌,
  leb, ltb, length, Option, none, some, ℤ, Result, ok, err, Error, errno, Outcome, done, failed, Io,
  ◌>>=◌, ◌>>◌, pure, fail, fail_if, lift, Always, Ends, >>=-Ends, arith,
}
use colnk.Protocol.Types.{Request, Response, max_header_bytes}
use colnk.Provider.FileService.{
  Os, FileInfo, ReadError, eof, read_error, OpenFlags, state_of, is_not_exist,
}
use colnk.Provider.FileService.Names.{
  with_file, keep_if, reject_special, reject_special_if_present, open_regular, open_mutable,
  open_parent, stat, mutation_result,
}
use colnk.Provider.FileService.Operations.{
  read_result, attr_response, create, rename, chmod, chtimes, truncate, remove, read, write, sync,
  symlink, readlink_loop, readlink, run_operation, execute, handle, do_if,
}

module _ {S : Type 0} (opens : S → ℕ) where
  -- Code that starts with `a` open files, ends with `b` where it succeeds and with `c` where it fails, beside
  -- any others.
  pub record Moves {A : Type 0} (a b c : ℕ) (m : Io S A) : Type 0 where
    pub moves :
        (n : ℕ) (s : S)
        → opens s ≡ n + a
        → Ends (λ _ t. opens t ≡ n + b) (λ t. opens t ≡ n + c) (m s)

  pub bind-Moves :
      {A B : Type 0} {a b c d : ℕ} (m : Io S A) (f : A → Io S B)
      → Moves a b c m
      → ((x : A) → Moves b d c (f x))
      → Moves a d c (m >>= f)
  bind-Moves {b = b} {c = c} {d = d} m f h k = record {
    moves = λ n s e.
        >>=-Ends (λ _ t. opens t ≡ n + b) (λ _ t. opens t ≡ n + d) (λ t. opens t ≡ n + c) m f s
          (h.moves n s e) (λ x t g. (k x).moves n t g);
  }

  -- Where the first part leaves as many open as there were, and where it opens one.
  pub same-Moves :
      {A B : Type 0} {a c d : ℕ} (m : Io S A) (f : A → Io S B)
      → Moves a a c m
      → ((x : A) → Moves a d c (f x))
      → Moves a d c (m >>= f)
  same-Moves m f h k = bind-Moves m f h k

  pub open-Moves :
      {A B : Type 0} {a c d : ℕ} (m : Io S A) (f : A → Io S B)
      → Moves a (a + 1) c m
      → ((x : A) → Moves (a + 1) d c (f x))
      → Moves a d c (m >>= f)
  open-Moves m f h k = bind-Moves m f h k

  pub then-Moves :
      {B : Type 0} {a c d : ℕ} (m : Io S (Unit {0})) (k : Io S B)
      → Moves a a c m
      → Moves a d c k
      → Moves a d c (m >> k)
  then-Moves m k h j = bind-Moves m (λ _. k) h (λ _. j)

  pub pure-Moves : {A : Type 0} {a c : ℕ} (x : A) → Moves a a c (pure x)
  pure-Moves x = record { moves = λ n s e. e }

  pub fail-Moves : {A : Type 0} {a b : ℕ} (e : Error) → Moves {A = A} a b a (fail e)
  fail-Moves x = record { moves = λ n s e. e }

  pub fail_if-Moves : {a : ℕ} (b : Bool) (e : Error) → Moves a a a (fail_if b e)
  fail_if-Moves true x = record { moves = λ n s e. e }
  fail_if-Moves false x = record { moves = λ n s e. e }

  pub lift-Moves : {A : Type 0} {a : ℕ} (r : Result A) → Moves a a a (lift r)
  lift-Moves (ok x) = record { moves = λ n s e. e }
  lift-Moves (err x) = record { moves = λ n s e. e }

  pub if-Moves :
      {A : Type 0} {a b c : ℕ} (x : Bool) (m k : Io S A)
      → Moves a b c m
      → Moves a b c k
      → Moves a b c (if x then m else k)
  if-Moves true m k h j = h
  if-Moves false m k h j = j

  pub ruleset balance = (
    same-Moves, open-Moves, then-Moves, pure-Moves, fail-Moves, fail_if-Moves, lift-Moves, if-Moves,
  )

  module _ {File : Type 0} (os : Os S File) where
    -- Opening takes a file where it succeeds, closing gives one back even where it fails, and no other call
    -- changes how many are open.
    pub record IsCounted : Type 0 where
      pub lstat_same : (a : ℕ) (name : Bytes) → Moves a a a (os.lstat name)
      pub stat_same : (a : ℕ) (name : Bytes) → Moves a a a (os.stat name)
      pub opened :
          (a : ℕ) (name : Bytes) (flags : OpenFlags) (mode : ℕ)
          → Moves a (a + 1) a (os.open_file name flags mode)
      pub opened_directory : (a : ℕ) (name : Bytes) → Moves a (a + 1) a (os.open_directory name)
      pub closed :
          (n : ℕ) (file : File) (s : S)
          → opens s ≡ n + 1
          → Always (λ t. opens t ≡ n) (os.close file s)
      pub fstat_same : (a : ℕ) (file : File) → Moves a a a (os.fstat file)
      pub read_at_same :
          (file : File) (size : ℕ) (offset : ℤ) (s : S)
          → opens (os.read_at file size offset s).1 ≡ opens s
      pub write_at_same :
          (a : ℕ) (file : File) (content : Bytes) (offset : ℤ)
          → Moves a a a (os.write_at file content offset)
      pub truncate_same : (a : ℕ) (file : File) (size : ℤ) → Moves a a a (os.truncate file size)
      pub sync_same : (a : ℕ) (file : File) → Moves a a a (os.sync file)
      pub chmod_same : (a : ℕ) (file : File) (mode : ℕ) → Moves a a a (os.chmod file mode)
      pub futimes_same : (a : ℕ) (file : File) (t : ℤ) → Moves a a a (os.futimes file t)
      pub mkdir_same : (a : ℕ) (name : Bytes) (mode : ℕ) → Moves a a a (os.mkdir name mode)
      pub remove_same : (a : ℕ) (name : Bytes) → Moves a a a (os.remove name)
      pub renameat_same :
          (a : ℕ) (d : File) (x : Bytes) (e : File) (y : Bytes) → Moves a a a (os.renameat d x e y)
      pub symlinkat_same :
          (a : ℕ) (target : Bytes) (d : File) (x : Bytes) → Moves a a a (os.symlinkat target d x)
      pub readlinkat_same :
          (a : ℕ) (d : File) (x : Bytes) (size : ℕ) → Moves a a a (os.readlinkat d x size)
