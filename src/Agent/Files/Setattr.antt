-- ===== src/Agent/Files/Setattr.antt =====
-- pkg/agent/filesystem/nodes_linux.go: Setattr of a node.
use Prim.Native.Nat.{bit_and, ◌-◌}
use colnk.Common.{
  ℕ, ◌^◌, codes, [], Option, none, some, Bool, true, false, ◌||◌, ltb, if◌then◌else◌, ℤ, pos,
  negsuc, done, Io, ◌>>=◌, ◌>>◌, pure,
}
use colnk.Protocol.Types.{FileAttr}
use colnk.Agent.Changes.{update_changed_attr}
use colnk.Agent.WriteBack.{request_for, flush_pending}
use colnk.Agent.Nodes.{RemoteFs, on_node}
use colnk.Agent.Attributes.{FuseAttr, fill_attr, or_fuse, fuse_outcome}
use colnk.Agent.Files.{RemoteCalls, on_caches, path_of, node_mtime, fs_call, attr}

-- fuse.SetattrRequest: a field is valid where it is there.
pub record SetattrRequest : Type 0 where
  pub size : Option ℕ
  pub mode : Option ℕ
  pub mtime : Option ℤ

-- `int64(n)` of a uint64
unfoldable pub to_int64 : ℕ → ℤ
to_int64 n = if ltb n (2 ^ 63) then pos n else negsuc (2 ^ 64 - 1 - n)

-- os.FileMode.Perm
abbrev pub perm : ℕ → ℕ
perm mode = bit_and mode 511

-- `request.Valid.…()`
abbrev pub is_given : {A : Type 0} → Option A → Bool
is_given none = false
is_given (some _) = true

module _ {R : Type 0} (calls : RemoteCalls R) (now : ℕ) where
  -- The three parts of Setattr, each with `latest` before and after.
  unfoldable pub set_size : ℕ → Option ℕ → Option FileAttr → Io (RemoteFs R) (Option FileAttr)
  unfolding to_int64 fs_call fuse_outcome
  set_size id none latest = pure latest
  set_size id (some size) latest = do
    path ← path_of id
    answer ← or_fuse (fs_call calls now (request_for (codes "truncate") path (to_int64 size)) [])
    pure (answer.0.attr)

  unfoldable pub set_mode : ℕ → Option ℕ → Option FileAttr → Io (RemoteFs R) (Option FileAttr)
  unfolding fs_call fuse_outcome
  set_mode id none latest = pure latest
  set_mode id (some mode) latest = do
    path ← path_of id
    answer ← or_fuse (
        fs_call calls now (record (request_for (codes "chmod") path (pos 0)) { mode = perm mode })
          [])
    pure (answer.0.attr)

  unfoldable pub set_mtime : ℕ → Option ℤ → Option FileAttr → Io (RemoteFs R) (Option FileAttr)
  unfolding node_mtime fs_call fuse_outcome
  set_mtime id none latest = pure latest
  set_mtime id (some t) latest = do
    deferred ← node_mtime id t
    path ← path_of id
    (if deferred
        then pure none
        else (or_fuse (
              fs_call calls now
                (record (request_for (codes "chtimes") path (pos 0)) { mod_time_ns = t }) [])
            >>= λ answer. pure (answer.0.attr)))

  unfoldable pub set_changed : ℕ → FuseAttr → Option FileAttr → Io (RemoteFs R) FuseAttr
  unfolding attr on_caches update_changed_attr fill_attr
  set_changed id target none = attr calls now id target
  set_changed id target (some latest) = do
    path ← path_of id
    on_caches (update_changed_attr path (some latest) now)
    (λ fs. done (fill_attr target (some latest) fs.caches.metadata.ttl) fs)

  unfoldable pub setattr : ℕ → SetattrRequest → FuseAttr → Io (RemoteFs R) FuseAttr
  unfolding on_node flush_pending fuse_outcome set_size set_mode set_mtime set_changed
  setattr id request target = do
    (if is_given request.size || is_given request.mode
        then or_fuse (on_node id (flush_pending calls.file now))
        else pure tt)
    sized ← set_size id request.size none
    moded ← set_mode id request.mode sized
    latest ← set_mtime id request.mtime moded
    set_changed id target latest
