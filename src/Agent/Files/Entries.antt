-- ===== src/Agent/Files/Entries.antt =====
-- pkg/agent/filesystem/nodes_linux.go: Mkdir, Create, Remove, Rename and Symlink of a directory node.
use colnk.Common.{
  ℕ, Bytes, codes, [], Option, none, some, pos, errno, done, Io, ◌>>=◌, ◌>>◌, pure, fail,
}
use colnk.Protocol.Types.{Request}
use colnk.Agent.Changes.{invalidate_change, update_changed_attr}
use colnk.Agent.WriteBack.{request_for, flush_pending}
use colnk.Agent.Nodes.{RemoteFs, on_node, remove_nodes, rename_nodes}
use colnk.Agent.Attributes.{or_fuse, fuse_outcome, eio}
use colnk.Agent.Symlink.{local_symlink_target}
use colnk.Agent.Files.{RemoteCalls, on_caches, node_at, path_of, child_path, fs_call}
use colnk.Agent.Files.Setattr.{perm}

-- A change of the table of nodes.
unfoldable pub on_nodes : {R : Type 0} → (RemoteFs R → RemoteFs R) → Io (RemoteFs R) (Unit {0})
on_nodes f fs = done tt (f fs)

module _ {R : Type 0} (calls : RemoteCalls R) (now : ℕ) where
  -- The call that makes a file, and the cache after it.
  unfoldable pub make : Request → Bytes → Io (RemoteFs R) (Unit {0})
  unfolding fs_call fuse_outcome on_caches update_changed_attr
  make request path = do
    answer ← or_fuse (fs_call calls now request [])
    on_caches (update_changed_attr path answer.0.attr now)

  unfoldable pub mkdir : ℕ → Bytes → ℕ → Io (RemoteFs R) ℕ
  unfolding make node_at
  mkdir id name mode = do
    path ← child_path id name
    make (record (request_for (codes "mkdir") path (pos 0)) { mode = perm mode }) path
    node_at path

  unfoldable pub create : ℕ → Bytes → ℕ → Io (RemoteFs R) ℕ
  unfolding node_at make
  create id name mode = do
    path ← child_path id name
    child ← node_at path
    created ← path_of child
    make (record (request_for (codes "create") created (pos 0)) { mode = perm mode }) created
    pure child

  unfoldable pub symlink : ℕ → Bytes → Bytes → Io (RemoteFs R) ℕ
  unfolding node_at make local_symlink_target
  symlink id new_name target fs =
      let target' = local_symlink_target fs.mountpoint target in
      (do
        path ← child_path id new_name
        child ← node_at path
        created ← path_of child
        make (record (request_for (codes "symlink") created (pos 0)) { target = target' }) created
        pure child)
        fs

  -- `f.node(path).flushPending(ctx)`
  unfoldable pub flush_path : Bytes → Io (RemoteFs R) (Unit {0})
  unfolding node_at on_node flush_pending fuse_outcome
  flush_path path = do id ← node_at path; or_fuse (on_node id (flush_pending calls.file now))

  unfoldable pub remove : ℕ → Bytes → Io (RemoteFs R) (Unit {0})
  unfolding flush_path fs_call fuse_outcome on_nodes remove_nodes on_caches invalidate_change
  remove id name = do
    path ← child_path id name
    flush_path path
    _ ← or_fuse (fs_call calls now (request_for (codes "remove") path (pos 0)) [])
    on_nodes (remove_nodes path)
    on_caches (invalidate_change path)

  -- Rename behind the test of its target.
  unfoldable pub rename_to : ℕ → Bytes → ℕ → Bytes → Io (RemoteFs R) (Unit {0})
  unfolding flush_path fs_call fuse_outcome on_nodes rename_nodes on_caches invalidate_change
      update_changed_attr
  rename_to id old_name target new_name = do
    old_path ← child_path id old_name
    new_path ← child_path target new_name
    flush_path old_path
    flush_path new_path
    answer ← or_fuse (
        fs_call calls now
          (record (request_for (codes "rename") old_path (pos 0)) { new_path = new_path }) [])
    on_nodes (rename_nodes old_path new_path)
    on_caches (invalidate_change old_path)
    on_caches (update_changed_attr new_path answer.0.attr now)

  -- `newDirectory.(*remoteNode)`: `none` for a node of another kind.
  unfoldable pub rename : ℕ → Bytes → Option ℕ → Bytes → Io (RemoteFs R) (Unit {0})
  unfolding rename_to
  rename id old_name none new_name = fail (errno eio)
  rename id old_name (some target) new_name = rename_to id old_name target new_name
