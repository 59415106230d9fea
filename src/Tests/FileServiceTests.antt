-- ===== src/Tests/FileServiceTests.antt =====
-- The provider's file service at concrete inputs.
use colnk.Common.{ℕ, ◌+◌, ◌-◌, ◌≡◌, refl, codes, none, some, pos, done, arith}
use colnk.Protocol.Types.{Request}
use colnk.Agent.WriteBack.{request_for}
use colnk.Provider.FileService.{Os, FileInfo, eof, plain_response}
use colnk.Provider.FileService.Operations.{handle, read}
use colnk.Provider.FileService.Handles.{IsCounted}
use colnk.Provider.FileService.Handles.Operations.{handle-opens}

abbrev info : FileInfo
info = record { name = codes "a"; mode = 420; size = 3; mod_time_ns = pos 7; sys = some (1, 2, 3) }

-- An operating system that counts the open files.
abbrev counting : Os ℕ (Unit {0})
counting = record {
  lstat = λ name s. done info s;
  stat = λ name s. done info s;
  open_file = λ name flags mode s. done tt (s + 1);
  open_directory = λ name s. done tt (s + 1);
  close = λ file s. done tt (s - 1);
  fstat = λ file s. done info s;
  read_at = λ file size offset s. ((codes "abc", some eof), s);
  write_at = λ file content offset s. done tt s;
  truncate = λ file size s. done tt s;
  sync = λ file s. done tt s;
  chmod = λ file mode s. done tt s;
  futimes = λ file t s. done tt s;
  mkdir = λ name mode s. done tt s;
  remove = λ name s. done tt s;
  renameat = λ d x e y s. done tt s;
  symlinkat = λ target d x s. done tt s;
  readlinkat = λ d x size s. done (codes "b") s;
}

abbrev count : ℕ → ℕ
count s = s

counting-IsCounted : IsCounted count counting
counting-IsCounted = record {
  lstat_same = λ a name. record { moves = λ n s e. e };
  stat_same = λ a name. record { moves = λ n s e. e };
  opened = λ a name flags mode. record { moves = λ n s e. omega (arith, e) };
  opened_directory = λ a name. record { moves = λ n s e. omega (arith, e) };
  closed = λ n file s e. omega (arith, e);
  fstat_same = λ a file. record { moves = λ n s e. e };
  read_at_same = λ file size offset s. refl;
  write_at_same = λ a file content offset. record { moves = λ n s e. e };
  truncate_same = λ a file size. record { moves = λ n s e. e };
  sync_same = λ a file. record { moves = λ n s e. e };
  chmod_same = λ a file mode. record { moves = λ n s e. e };
  futimes_same = λ a file t. record { moves = λ n s e. e };
  mkdir_same = λ a name mode. record { moves = λ n s e. e };
  remove_same = λ a name. record { moves = λ n s e. e };
  renameat_same = λ a d x e y. record { moves = λ n s e. e };
  symlinkat_same = λ a target d x. record { moves = λ n s e. e };
  readlinkat_same = λ a d x size. record { moves = λ n s e. e };
}

abbrev write_request_of : Request
write_request_of = request_for (codes "write") (codes "a/b") (pos 0)

handle-opens_example : (handle counting write_request_of (codes "xyz") 4).1 ≡ 4
handle-opens_example =
    handle-opens count counting counting-IsCounted write_request_of (codes "xyz") 4

read_end : read counting (codes "a") (pos 0) (pos 3) 4 ≡ done (plain_response none, codes "abc") 4
unfolding read
read_end = refl
