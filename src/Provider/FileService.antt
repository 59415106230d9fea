-- ===== src/Provider/FileService.antt =====
-- pkg/provider/filesystem: the file operations of the provider, below its root. The calls of os.Root, os.File
-- and of package unix are a parameter. `err.Error()` is left out of a response, as errors have no text here.
pub mod Names
pub mod Operations
pub mod Handles
use Prim.Native.Nat.{bit_and}
use colnk.Common.{
  ℕ, ◌+◌, ◌^◌, Bytes, codes, bytes_beq, [], Option, none, some, Bool, true, false, not, ◌&&◌,
  nat_beq, if◌then◌else◌, ℤ, pos, Error, errno, message, Outcome, done, failed, Io, ◌>>=◌, ◌>>◌,
  pure, fail, fail_if,
}
use colnk.Protocol.Types.{FileAttr, Response}
use colnk.Provider.RemotePath.{eperm}

-- syscall.ENOENT, EIO, EACCES, ENOTDIR, EOVERFLOW, ENAMETOOLONG
abbrev pub enoent : ℕ
enoent = 2

abbrev pub eio : ℕ
eio = 5

abbrev pub eacces : ℕ
eacces = 13

abbrev pub enotdir : ℕ
enotdir = 20

abbrev pub enametoolong : ℕ
enametoolong = 36

abbrev pub eoverflow : ℕ
eoverflow = 75

-- os.FileInfo, with what `Sys` tells: the inode, the user and the group.
pub record FileInfo : Type 0 where
  pub name : Bytes
  pub mode : ℕ
  pub size : ℕ
  pub mod_time_ns : ℤ
  pub sys : Option (ℕ × ℕ × ℕ)

-- The flags that the code opens files with.
pub data OpenFlags : Type 0 where
  read_only write_only read_write create_exclusive : OpenFlags

-- The error beside the bytes that a call read.
pub data ReadError : Type 0 where
  eof : ReadError
  read_error : Error → ReadError

-- os.Root, os.File and package unix, on the state `S` of the operating system.
pub record Os (S File : Type 0) : Type 0 where
  pub lstat : Bytes → Io S FileInfo
  pub stat : Bytes → Io S FileInfo
  pub open_file : Bytes → OpenFlags → ℕ → Io S File
  pub open_directory : Bytes → Io S File
  pub close : File → Io S (Unit {0})
  pub fstat : File → Io S FileInfo
  pub read_at : File → ℕ → ℤ → S → (Bytes × Option ReadError) × S
  pub write_at : File → Bytes → ℤ → Io S (Unit {0})
  pub truncate : File → ℤ → Io S (Unit {0})
  pub sync : File → Io S (Unit {0})
  pub chmod : File → ℕ → Io S (Unit {0})
  pub futimes : File → ℤ → Io S (Unit {0})
  pub mkdir : Bytes → ℕ → Io S (Unit {0})
  pub remove : Bytes → Io S (Unit {0})
  pub renameat : File → Bytes → File → Bytes → Io S (Unit {0})
  pub symlinkat : Bytes → File → Bytes → Io S (Unit {0})
  pub readlinkat : File → Bytes → ℕ → Io S Bytes

-- os.ModeDir, os.ModeSymlink and os.ModeType
abbrev pub mode_dir : ℕ
mode_dir = 2 ^ 31

abbrev pub mode_symlink : ℕ
mode_symlink = 2 ^ 27

abbrev pub mode_type : ℕ
mode_type = 2 ^ 31 + 2 ^ 27 + 2 ^ 26 + 2 ^ 25 + 2 ^ 24 + 2 ^ 21 + 2 ^ 19

abbrev pub is_regular : ℕ → Bool
is_regular mode = nat_beq (bit_and mode mode_type) 0

abbrev pub is_dir : ℕ → Bool
is_dir mode = not (nat_beq (bit_and mode mode_dir) 0)

abbrev pub is_link : ℕ → Bool
is_link mode = not (nat_beq (bit_and mode mode_symlink) 0)

unfoldable pub is_special : ℕ → Bool
is_special mode = not (is_regular mode) && not (is_dir mode) && not (is_link mode)

-- `mode.Perm()`
abbrev pub perm : ℕ → ℕ
perm mode = bit_and mode 511

abbrev pub ids_of : Option (ℕ × ℕ × ℕ) → ℕ × ℕ × ℕ
ids_of none = (0, 0, 0)
ids_of (some ids) = ids

unfoldable pub file_attr : FileInfo → FileAttr
file_attr info =
    let (inode, uid, gid) = ids_of info.sys in
    record {
      mode = info.mode;
      size = info.size;
      mod_time_ns = info.mod_time_ns;
      inode = inode;
      uid = uid;
      gid = gid;
    }

-- A response without an error.
abbrev pub plain_response : Option FileAttr → Response
plain_response attr = record {
  error_code = pos 0;
  error = [];
  attr = attr;
  more = false;
  data_length = pos 0;
  data_encoding = [];
  raw_data_length = pos 0;
}

-- Errno: os.ErrPermission is the text "permission denied" where it is no errno.
unfoldable pub errno_of : Error → ℕ
errno_of (errno code) = code
errno_of (message text) =
    if bytes_beq text (codes "path escapes from parent")
    then eperm
    else if bytes_beq text (codes "permission denied")
    then eacces
    else eio
errno_of _ = eio

-- `errors.Is(err, os.ErrNotExist)`
unfoldable pub is_not_exist : Error → Bool
is_not_exist (errno code) = nat_beq code enoent
is_not_exist _ = false

-- The state that an outcome leaves, for a call whose result is dropped.
abbrev pub state_of {ℓ κ} : {S : Type ℓ} {A : Type κ} → Outcome S A → S
state_of (done a s) = s
state_of (failed e s) = s
