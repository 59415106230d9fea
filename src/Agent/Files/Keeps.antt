-- ===== src/Agent/Files/Keeps.antt =====
-- The table of nodes through the steps of the kernel's calls (pkg/agent/filesystem/nodes_linux.go).
pub mod Entries
pub mod Queries
pub mod Contents
use colnk.Common.{
  ℕ, ◌≡◌, refl, Bytes, List, [], ◌∷◌, Option, none, some, Bool, true, false, if◌then◌else◌,
  Option-cases, Bool-cases, inl, inr, ℤ, pos, codes, errno, Result, Error, fail, Outcome, done,
  failed, Io, ◌>>=◌, ◌>>◌, Always, >>=-Always, lookup, nat_beq_iff, arith, pure,
}
use colnk.Protocol.Types.{Request, Response, FileAttr, DirEntry}
use colnk.Agent.Changes.{Caches}
use colnk.Agent.WriteBack.{Node, defer_mtime, request_for}
use colnk.Agent.Nodes.{
  RemoteFs, remote_path, node, on_node, focus, unfocus, forget, remove_nodes, rename_nodes,
}
use colnk.Agent.Nodes.Registry.{
  IsRegistry, node-IsRegistry, forget-IsRegistry, remove_nodes-IsRegistry, rename_nodes-IsRegistry,
}
use colnk.Agent.Attributes.{
  fuse_dir_entries, FuseAttr, or_fuse, fuse_outcome, fuse_error, is_remote_errno, enoent,
}
use colnk.Agent.MetadataCache.Operations.{put_missing, put_attr, put_dir, put_link}
use colnk.Agent.Symlink.{local_symlink_target, mount_symlink_target}
use colnk.Agent.Files.{
  RemoteCalls, on_caches, ask_caches, node_at, path_of, child_path, node_mtime, fs_call, report,
  stat, attr, lookup_child, read_dir_all, readlink, cached_attr, cached_missing, cached_dir,
  cached_link,
}
use colnk.Agent.Files.Entries.{
  on_nodes, make, mkdir, create, symlink, flush_path, remove, rename_to, rename,
}

-- Code that keeps the table in step, whether it succeeds or fails.
pub record Keeps {R A : Type 0} (m : Io (RemoteFs R) A) : Type 0 where
  pub keep : (fs : RemoteFs R) → IsRegistry fs → Always IsRegistry (m fs)

module _ {R : Type 0} where
  pub bind-Keeps :
      {A B : Type 0} (m : Io (RemoteFs R) A) (f : A → Io (RemoteFs R) B)
      → Keeps m
      → ((a : A) → Keeps (f a))
      → Keeps (m >>= f)
  bind-Keeps m f h k = record {
    keep = λ fs r. >>=-Always IsRegistry m f fs (h.keep fs r) (λ a t s. (k a).keep t s);
  }

  pub then-Keeps :
      {B : Type 0} (m : Io (RemoteFs R) (Unit {0})) (k : Io (RemoteFs R) B)
      → Keeps m
      → Keeps k
      → Keeps (m >> k)
  then-Keeps m k h j = bind-Keeps m (λ _. k) h (λ _. j)

  pub fuse-Keeps : {A : Type 0} (m : Io (RemoteFs R) A) → Keeps m → Keeps (or_fuse m)
  fuse-Keeps {A = A} m h = record { keep = λ fs r. go (m fs) (h.keep fs r) }
    where
      go : (o : Outcome (RemoteFs R) A) → Always IsRegistry o → Always IsRegistry (fuse_outcome o)
      go (done a s) k = unfold fuse_outcome in k
      go (failed e s) k = unfold fuse_outcome in k

  pub on_caches-Keeps : (f : Caches → Caches) → Keeps {R = R} (on_caches f)
  unfolding on_caches IsRegistry
  on_caches-Keeps f = record { keep = λ fs r. r }

  pub ask_caches-Keeps : {A : Type 0} (f : Caches → Caches × A) → Keeps {R = R} (ask_caches f)
  unfolding ask_caches IsRegistry
  ask_caches-Keeps f = record { keep = λ fs r. r }

  pub node_at-Keeps : (path : Bytes) → Keeps {R = R} (node_at path)
  unfolding node_at
  node_at-Keeps path = record { keep = λ fs r. (node-IsRegistry path fs r).0 }

  pub unfocus-IsRegistry :
      (id : ℕ) (n : Node R) (fs : RemoteFs R) → IsRegistry fs → IsRegistry (unfocus id n fs)
  unfolding IsRegistry
  unfocus-IsRegistry id n fs (d, h) =
      (d, λ path i found. ground (arith, h path i found, nat_beq_iff i id))

  pub on_node-Keeps : {A : Type 0} (id : ℕ) (m : Io (Node R) A) → Keeps (on_node id m)
  unfolding on_node
  on_node-Keeps {A = A} id m = record { keep = λ fs r. go fs r (m (focus id fs)) }
    where
      go :
          (fs : RemoteFs R)
          → IsRegistry fs
          → (o : Outcome (Node R) A)
          → Always IsRegistry (elim o [
            | done a n ↦ done a (unfocus id n fs)
            | failed e n ↦ failed e (unfocus id n fs)
          ])
      go fs r (done a n) = unfocus-IsRegistry id n fs r
      go fs r (failed e n) = unfocus-IsRegistry id n fs r

  pub path_of-Keeps : (id : ℕ) → Keeps {R = R} (path_of id)
  path_of-Keeps id = record { keep = λ fs r. r }

  pub child_path-Keeps : (id : ℕ) (name : Bytes) → Keeps {R = R} (child_path id name)
  child_path-Keeps id name = record { keep = λ fs r. r }

  pub pure-Keeps : {A : Type 0} (a : A) → Keeps {R = R} (pure a)
  pure-Keeps a = record { keep = λ fs r. r }

  pub on_nodes-Keeps :
      (f : RemoteFs R → RemoteFs R)
      → ((fs : RemoteFs R) → IsRegistry fs → IsRegistry (f fs))
      → Keeps (on_nodes f)
  unfolding on_nodes
  on_nodes-Keeps f h = record { keep = h }

  pub remove_nodes-Keeps : (path : Bytes) → Keeps {R = R} (on_nodes (remove_nodes path))
  remove_nodes-Keeps path = on_nodes-Keeps _ (remove_nodes-IsRegistry path)

  pub rename_nodes-Keeps :
      (old_path new_path : Bytes) → Keeps {R = R} (on_nodes (rename_nodes old_path new_path))
  rename_nodes-Keeps old_path new_path =
      on_nodes-Keeps _ (rename_nodes-IsRegistry old_path new_path)

  pub if-Keeps :
      {A : Type 0} (b : Bool) (m k : Io (RemoteFs R) A)
      → Keeps m
      → Keeps k
      → Keeps (if b then m else k)
  if-Keeps true m k h j = h
  if-Keeps false m k h j = j

  pub fail-Keeps : {A : Type 0} (e : Error) → Keeps {R = R} {A = A} (fail e)
  fail-Keeps e = record { keep = λ fs r. r }

  pub node_mtime-Keeps : (id : ℕ) (t : ℤ) → Keeps {R = R} (node_mtime id t)
  unfolding node_mtime
  node_mtime-Keeps id t = record {
    keep = λ fs r. unfocus-IsRegistry id (defer_mtime t (focus id fs)).0 fs r;
  }

  -- Code that reads the mount point and nothing else of the state.
  pub mountpoint-Keeps :
      {A : Type 0} (f : Bytes → A) → Keeps {R = R} (λ fs. done (f fs.mountpoint) fs)
  mountpoint-Keeps f = record { keep = λ fs r. r }

  pub ruleset keeps = (
    bind-Keeps, then-Keeps, fuse-Keeps, on_caches-Keeps, ask_caches-Keeps, node_at-Keeps,
    on_node-Keeps, path_of-Keeps, child_path-Keeps, pure-Keeps, if-Keeps, fail-Keeps,
    node_mtime-Keeps, mountpoint-Keeps, remove_nodes-Keeps, rename_nodes-Keeps,
  )

  module _ (calls : RemoteCalls R) (now : ℕ) where
    pub fs_call-Keeps :
        (request : Request) (content : Bytes) → Keeps (fs_call calls now request content)
    unfolding fs_call
    fs_call-Keeps request content = record {
      keep = λ fs r. go fs r (calls.file request content fs.remote);
    }
      where
        go :
            (fs : RemoteFs R)
            → IsRegistry fs
            → (o : Outcome R (Response × Bytes))
            → Always IsRegistry (elim o [
              | done answer s ↦ done answer (record fs { remote = s })
              | failed e s ↦ failed e (record fs { remote = s })
            ])
        go fs r (done answer s) = unfold IsRegistry in r
        go fs r (failed e s) = unfold IsRegistry in r
