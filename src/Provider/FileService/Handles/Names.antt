-- ===== src/Provider/FileService/Handles/Names.antt =====
-- The files that the operations of pkg/provider/filesystem open and close.
use colnk.Common.{
  ℕ, ◌+◌, ◌≡◌, Bytes, Bool, Bool-cases, inl, inr, if◌then◌else◌, Error, Outcome, done, failed, Io,
  Always, Ends, arith, ◌∙◌,
}
use colnk.Provider.FileService.{Os, FileInfo, OpenFlags, state_of, is_not_exist}
use colnk.Provider.FileService.Names.{
  with_file, keep_if, reject_special, reject_special_if_present, open_regular, open_mutable,
  open_parent, stat, mutation_result,
}
use colnk.Provider.FileService.Handles.{Moves, IsCounted, balance}

module _ {S File : Type 0} (opens : S → ℕ) (os : Os S File) (counted : IsCounted opens os) where
  pub state_of-closed :
      (n : ℕ) (file : File) (t : S) → opens t ≡ n + 1 → opens (state_of (os.close file t)) ≡ n
  state_of-closed n file t e = go (os.close file t) (counted.closed n file t e)
    where
      go : (o : Outcome S (Unit {0})) → Always (λ u. opens u ≡ n) o → opens (state_of o) ≡ n
      go (done x u) h = h
      go (failed x u) h = h

  pub plus_one : (n a : ℕ) → n + (a + 1) ≡ (n + a) + 1
  plus_one n a = omega arith

  pub with_file-Moves :
      {A : Type 0} (a : ℕ) (file : File) (m : Io S A)
      → Moves opens (a + 1) (a + 1) (a + 1) m
      → Moves opens (a + 1) a a (with_file os file m)
  unfolding with_file
  with_file-Moves {A = A} a file m h = record { moves = λ n s e. go n (m s) (h.moves n s e) }
    where
      go :
          (n : ℕ) (o : Outcome S A)
          → Ends (λ _ t. opens t ≡ n + (a + 1)) (λ t. opens t ≡ n + (a + 1)) o
          → Ends
              (λ _ t. opens t ≡ n + a)
              (λ t. opens t ≡ n + a)
              (elim o [
                | done x t ↦ done x (state_of (os.close file t))
                | failed e t ↦ failed e (state_of (os.close file t))
              ])
      go n (done x t) k = state_of-closed (n + a) file t (k ∙ plus_one n a)
      go n (failed x t) k = state_of-closed (n + a) file t (k ∙ plus_one n a)

  pub keep_if-Moves :
      (a : ℕ) (good : FileInfo → Bool) (e : Error) (file : File)
      → Moves opens (a + 1) (a + 1) a (keep_if os good e file)
  unfolding keep_if
  keep_if-Moves a good e file = record {
    moves = λ n s f. go n (os.fstat file s) ((counted.fstat_same (a + 1) file).moves n s f);
  }
    where
      go :
          (n : ℕ) (o : Outcome S FileInfo)
          → Ends (λ _ t. opens t ≡ n + (a + 1)) (λ t. opens t ≡ n + (a + 1)) o
          → Ends
              (λ (_ : File) t. opens t ≡ n + (a + 1))
              (λ t. opens t ≡ n + a)
              (elim o [
                | failed e' t ↦ failed e' (state_of (os.close file t))
                | done info t ↦
                    if good info then done file t else failed e (state_of (os.close file t))
              ])
      go n (failed x t) k = state_of-closed (n + a) file t (k ∙ plus_one n a)
      go n (done info t) k = elim (Bool-cases (good info)) [
        | inl b ↦ rw (b) k
        | inr b ↦ rw (b) (state_of-closed (n + a) file t (k ∙ plus_one n a))
      ]

  pub reject_special-Moves : (a : ℕ) (name : Bytes) → Moves opens a a a (reject_special os name)
  unfolding reject_special
  reject_special-Moves a name = search (balance, counted.lstat_same)

  pub reject_special_if_present-Moves :
      (a : ℕ) (name : Bytes) → Moves opens a a a (reject_special_if_present os name)
  unfolding reject_special_if_present
  reject_special_if_present-Moves a name = record {
    moves = λ n s e. go n (reject_special os name s) ((reject_special-Moves a name).moves n s e);
  }
    where
      go :
          (n : ℕ) (o : Outcome S (Unit {0}))
          → Ends (λ _ t. opens t ≡ n + a) (λ t. opens t ≡ n + a) o
          → Ends
              (λ _ t. opens t ≡ n + a)
              (λ t. opens t ≡ n + a)
              (elim o [
                | done x t ↦ done x t
                | failed e t ↦ if is_not_exist e then done tt t else failed e t
              ])
      go n (done x t) k = k
      go n (failed x t) k = elim (Bool-cases (is_not_exist x)) [
        | inl b ↦ rw (b) k
        | inr b ↦ rw (b) k
      ]

  pub stat-Moves : (a : ℕ) (name : Bytes) → Moves opens a a a (stat os name)
  unfolding stat
  stat-Moves a name = search (balance, counted.lstat_same)

  pub mutation_result-Moves :
      (a : ℕ) (name : Bytes) (m : Io S (Unit {0}))
      → Moves opens a a a m
      → Moves opens a a a (mutation_result os name m)
  unfolding mutation_result
  mutation_result-Moves a name m h = search (balance, stat-Moves)

  pub open_regular-Moves :
      (a : ℕ) (name : Bytes) (flags : OpenFlags)
      → Moves opens a (a + 1) a (open_regular os name flags)
  unfolding open_regular
  open_regular-Moves a name flags =
      search (balance, counted.stat_same, counted.opened, keep_if-Moves)

  pub open_mutable-Moves : (a : ℕ) (name : Bytes) → Moves opens a (a + 1) a (open_mutable os name)
  unfolding open_mutable
  open_mutable-Moves a name = search (balance, counted.stat_same, counted.opened)

  pub open_parent-Moves : (a : ℕ) (name : Bytes) → Moves opens a (a + 1) a (open_parent os name)
  unfolding open_parent
  open_parent-Moves a name = search (balance, counted.opened_directory, keep_if-Moves)

  pub ruleset opening = (
    with_file-Moves, reject_special-Moves, reject_special_if_present-Moves, stat-Moves,
    mutation_result-Moves, open_regular-Moves, open_mutable-Moves, open_parent-Moves,
  )
