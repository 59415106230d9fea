-- ===== src/Agent/Files.antt =====
-- pkg/agent/filesystem/nodes_linux.go: the methods of a node that the kernel calls. The kernel's calls come
-- one after the other in the model, each with one reading of the clock.
pub mod Contents
pub mod Setattr
pub mod Entries
pub mod Blocks
pub mod Reads
pub mod Keeps
pub mod Served
use Prim.Native.Nat.{bit_and, ◌-◌, ◌*◌, ◌/◌}
use colnk.Common.{
  ℕ, zero, suc, ◌+◌, ◌^◌, min, Bytes, codes, length, take, drop, List, [], ◌∷◌, ◌++◌, Option, none,
  some, Bool, true, false, ◌||◌, ltb, leb, nat_beq, if◌then◌else◌, ℤ, pos, negsuc, Error, errno,
  Result, ok, err, Outcome, done, failed, Io, ◌>>=◌, ◌>>◌, pure, lift,
}
use colnk.Common.Paths.{join_path}
use colnk.Protocol.Types.{FileAttr, DirEntry, Request, Response, max_payload_bytes}
use colnk.Agent.Changes.{Caches, invalidate_change, update_changed_attr}
use colnk.Agent.MetadataCache.Operations.{
  get_attr, put_attr, is_missing, put_missing, get_dir, put_dir, get_link, put_link,
}
use colnk.Agent.ReadBlockCache.{ReadBlockKey, load_begin, load_end, hit, join, lead}
use colnk.Agent.WriteBack.{
  request_for, flush_pending, flush_pending_sync, buffer_write, defer_mtime,
}
use colnk.Agent.Nodes.{RemoteFs, node, remote_path, on_node, focus, unfocus}
use colnk.Agent.Attributes.{
  FuseAttr, Dirent, pending_attr, fill_attr, fuse_dir_entries, fuse_error, is_remote_errno, or_fuse,
  fuse_outcome, enoent,
}
use colnk.Agent.Symlink.{mount_symlink_target}

-- The calls of the other end that the file system makes: Remote.File, Remote.ReadDir.
pub record RemoteCalls (R : Type 0) : Type 0 where
  pub file : Request → Bytes → Io R (Response × Bytes)
  pub read_dir : Bytes → Io R (List DirEntry)

module _ {R : Type 0} where
  -- A change of the caches of the file system, and a question to them.
  unfoldable pub on_caches : (Caches → Caches) → Io (RemoteFs R) (Unit {0})
  on_caches f fs = done tt (record fs { caches = f fs.caches })

  unfoldable pub ask_caches : {A : Type 0} → (Caches → Caches × A) → Io (RemoteFs R) A
  ask_caches f fs = let (caches', a) = f fs.caches in done a (record fs { caches = caches' })

  -- `f.node(path)` and `n.remotePath()`
  unfoldable pub node_at : Bytes → Io (RemoteFs R) ℕ
  unfolding node
  node_at path fs = let (fs', id) = node path fs in done id fs'

  abbrev pub path_of : ℕ → Io (RemoteFs R) Bytes
  path_of id fs = done (remote_path id fs) fs

  -- A child of the directory.
  abbrev pub child_path : ℕ → Bytes → Io (RemoteFs R) Bytes
  child_path id name fs = done (join_path (remote_path id fs) name) fs

  -- `deferMtime`
  unfoldable pub node_mtime : ℕ → ℤ → Io (RemoteFs R) Bool
  unfolding defer_mtime
  node_mtime id t fs =
      let (n, deferred) = defer_mtime t (focus id fs) in done deferred (unfocus id n fs)

-- The questions of Attr to the metadata cache, at one time.
unfoldable pub cached_attr : Bytes → ℕ → Caches → Caches × Option FileAttr
unfolding get_attr
cached_attr path now caches =
    let (metadata', attr) = get_attr path now now caches.metadata in
    (record caches { metadata = metadata' }, attr)

unfoldable pub cached_missing : Bytes → ℕ → Caches → Caches × Bool
unfolding is_missing
cached_missing path now caches =
    let (metadata', missing) = is_missing path now now caches.metadata in
    (record caches { metadata = metadata' }, missing)

unfoldable pub cached_dir : Bytes → ℕ → Caches → Caches × Option (List DirEntry)
unfolding get_dir
cached_dir path now caches =
    let (metadata', entries) = get_dir path now caches.metadata in
    (record caches { metadata = metadata' }, entries)

unfoldable pub cached_link : Bytes → ℕ → Caches → Caches × Option Bytes
unfolding get_link
cached_link path now caches =
    let (metadata', target) = get_link path now now caches.metadata in
    (record caches { metadata = metadata' }, target)

module _ {R : Type 0} (calls : RemoteCalls R) (now : ℕ) where
  unfoldable pub fs_call : Request → Bytes → Io (RemoteFs R) (Response × Bytes)
  fs_call request content fs = elim (calls.file request content fs.remote) [
    | done answer r ↦ done answer (record fs { remote = r })
    | failed e r ↦ failed e (record fs { remote = r })
  ]

  -- What the node reports: the attributes with what is still to be written.
  unfoldable pub report : ℕ → FuseAttr → Option FileAttr → Io (RemoteFs R) FuseAttr
  unfolding pending_attr fill_attr
  report id target attr fs =
      done
        (fill_attr target
          (pending_attr (fs.objects id).write_blocks (fs.objects id).write_mtime attr)
          fs.caches.metadata.ttl)
        fs

  -- Attr from the call of Remote.File on.
  unfoldable pub stat : ℕ → FuseAttr → Bytes → Io (RemoteFs R) FuseAttr
  unfolding report put_attr put_missing is_remote_errno fuse_error fs_call
  stat id target path fs = elim (fs_call (request_for (codes "stat") path (pos 0)) [] fs) [
    | failed e fs' ↦
        if is_remote_errno e enoent
        then failed (fuse_error e) (record fs' {
          caches = record fs'.caches { metadata = put_missing path now fs'.caches.metadata };
        })
        else failed (fuse_error e) fs'
    | done (response, _) fs' ↦ report id target response.attr (record fs' {
      caches = record fs'.caches { metadata = put_attr path response.attr now fs'.caches.metadata };
    })
  ]

  unfoldable pub attr : ℕ → FuseAttr → Io (RemoteFs R) FuseAttr
  unfolding ask_caches cached_attr cached_missing report stat
  attr id target = do
    path ← path_of id
    cached ← ask_caches (cached_attr path now)
    elim cached [
      | some value ↦ report id target (some value)
      | none ↦ do
        missing ← ask_caches (cached_missing path now)
        (if missing then failed (errno enoent) else stat id target path)
    ]

  -- `attr` is what a fresh fuse.Attr holds.
  unfoldable pub lookup_child : ℕ → Bytes → FuseAttr → Io (RemoteFs R) ℕ
  unfolding node_at attr
  lookup_child id name fresh = do
    path ← child_path id name
    child ← node_at path
    _ ← attr child fresh
    pure child

  unfoldable pub read_dir_all : ℕ → Io (RemoteFs R) (List Dirent)
  unfolding ask_caches cached_dir fuse_dir_entries put_dir fuse_error
  read_dir_all id fs =
      let path = remote_path id fs in
      let (caches', cached) = cached_dir path now fs.caches in
      elim cached [
        | some entries ↦ done (fuse_dir_entries entries) (record fs { caches = caches' })
        | none ↦ elim (calls.read_dir path fs.remote) [
          | failed e r ↦ failed (fuse_error e) (record fs { caches = caches'; remote = r })
          | done entries r ↦ done (fuse_dir_entries entries) (record fs {
            caches = record caches' { metadata = put_dir path entries now caches'.metadata };
            remote = r;
          })
        ]
      ]

  unfoldable pub readlink : ℕ → Io (RemoteFs R) Bytes
  unfolding ask_caches cached_link fs_call fuse_outcome on_caches put_link mount_symlink_target
  readlink id = do
    path ← path_of id
    cached ← ask_caches (cached_link path now)
    elim cached [
      | some target ↦ λ fs. done (mount_symlink_target fs.mountpoint target) fs
      | none ↦ do
        answer ← or_fuse (fs_call (request_for (codes "readlink") path (pos 0)) [])
        on_caches λ c. record c { metadata = put_link path answer.1 now c.metadata }
        (λ fs. done (mount_symlink_target fs.mountpoint answer.1) fs)
    ]
