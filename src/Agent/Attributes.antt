-- ===== src/Agent/Attributes.antt =====
-- pkg/agent/filesystem/nodes_linux.go: what the kernel is told of a file (pendingAttr, fillAttr,
-- direntType, fuseDirEntries) and of an error (fuseError, isRemoteErrno). A time is its nanoseconds.
pub mod Pending
use Prim.Native.Nat.{bit_and, max}
use colnk.Common.{
  ℕ, ◌+◌, ◌%◌, ◌^◌, Bytes, List, [], ◌∷◌, Option, none, some, Bool, false, not, nat_beq,
  if◌then◌else◌, Map, map, ℤ, Error, remote_error, canceled, errno, Outcome, done, failed, Io,
}
use colnk.Protocol.Types.{FileAttr, DirEntry}
use colnk.Agent.WriteBlock.{WriteRange, PendingWriteBlock}
use colnk.Agent.MetadataCache.Operations.{mode_symlink}

-- syscall.ENOENT, syscall.EINTR and syscall.EIO
abbrev pub enoent : ℕ
enoent = 2

abbrev pub eintr : ℕ
eintr = 4

abbrev pub eio : ℕ
eio = 5

-- os.ModeDir
abbrev pub mode_dir : ℕ
mode_dir = 2 ^ 31

-- fuse.Attr, as far as the code fills it.
pub record FuseAttr : Type 0 where
  pub inode : ℕ
  pub size : ℕ
  pub mode : ℕ
  pub mtime : ℤ
  pub ctime : ℤ
  pub uid : ℕ
  pub gid : ℕ
  pub valid : ℕ

-- fuse.DirentType, as far as the code uses it.
pub data DirentType : Type 0 where
  dt_dir dt_link dt_file : DirentType

pub record Dirent : Type 0 where
  pub name : Bytes
  pub dirent_type : DirentType

-- The loop of pendingAttr over the ranges of a block: an int64 sum, taken as a uint64.
unfoldable pub grow_ranges : ℕ → List WriteRange → ℕ → ℕ
grow_ranges block_offset [] size = size
grow_ranges block_offset (dirty ∷ rest) size =
    let end = (block_offset + dirty.end) % 2 ^ 64 in grow_ranges block_offset rest (max size end)

-- The loop over the blocks.
unfoldable pub grow : Map ℕ PendingWriteBlock → ℕ → ℕ
unfolding grow_ranges
grow [] size = size
grow ((block_offset, block) ∷ rest) size = grow rest (grow_ranges block_offset block.dirty size)

abbrev pub or_default : Option ℤ → ℤ → ℤ
or_default none t = t
or_default (some s) t = s

unfoldable pub pending_attr : Map ℕ PendingWriteBlock → Option ℤ → Option FileAttr → Option FileAttr
unfolding grow
pending_attr blocks mtime none = none
pending_attr blocks mtime (some value) = some (record value {
  size = grow blocks value.size;
  mod_time_ns = or_default mtime value.mod_time_ns;
})

unfoldable pub fill_attr : FuseAttr → Option FileAttr → ℕ → FuseAttr
fill_attr target none ttl = target
fill_attr target (some source) ttl = record {
  inode = source.inode;
  size = source.size;
  mode = source.mode;
  mtime = source.mod_time_ns;
  ctime = source.mod_time_ns;
  uid = source.uid;
  gid = source.gid;
  valid = ttl;
}

unfoldable pub dirent_type_of : ℕ → DirentType
dirent_type_of mode =
    if not (nat_beq (bit_and mode mode_dir) 0)
    then dt_dir
    else if not (nat_beq (bit_and mode mode_symlink) 0)
    then dt_link
    else dt_file

unfoldable pub fuse_dir_entries : List DirEntry → List Dirent
unfolding dirent_type_of
fuse_dir_entries =
    map λ entry. record { name = entry.name; dirent_type = dirent_type_of entry.attr.mode }

-- The error that the kernel gets for one that is not nil.
unfoldable pub fuse_error : Error → Error
fuse_error (remote_error code _) = errno code
fuse_error canceled = errno eintr
fuse_error _ = errno eio

unfoldable pub is_remote_errno : Error → ℕ → Bool
is_remote_errno (remote_error code _) wanted = nat_beq code wanted
is_remote_errno _ wanted = false

-- `if err != nil { return fuseError(err) }`
unfoldable pub fuse_outcome {ℓ κ} : {S : Type ℓ} {A : Type κ} → Outcome S A → Outcome S A
unfolding fuse_error
fuse_outcome (done a s) = done a s
fuse_outcome (failed e s) = failed (fuse_error e) s

abbrev pub or_fuse {ℓ κ} : {S : Type ℓ} {A : Type κ} → Io S A → Io S A
or_fuse m s = fuse_outcome (m s)
