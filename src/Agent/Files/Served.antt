-- ===== src/Agent/Files/Served.antt =====
-- The kernel's calls of pkg/agent/filesystem/nodes_linux.go, in any order.
use colnk.Common.{
  ℕ, Bytes, List, [], ◌∷◌, Option, Result, Outcome, done, failed, Io, ◌>>=◌, pure, Always,
}
use colnk.Agent.ReadBlockCache.{ReadBlockKey}
use colnk.Agent.Nodes.{RemoteFs, forget}
use colnk.Agent.Nodes.Registry.{IsRegistry, forget-IsRegistry}
use colnk.Agent.Attributes.{FuseAttr}
use colnk.Agent.Files.{RemoteCalls, attr, lookup_child, read_dir_all, readlink}
use colnk.Agent.Files.Contents.{read, write_node, fsync, flush}
use colnk.Agent.Files.Setattr.{SetattrRequest, setattr}
use colnk.Agent.Files.Entries.{on_nodes, mkdir, create, symlink, remove, rename}
use colnk.Agent.Files.Keeps.{Keeps, keeps, on_nodes-Keeps}
use colnk.Agent.Files.Keeps.Entries.{
  mkdir-Keeps, create-Keeps, symlink-Keeps, remove-Keeps, rename-Keeps,
}
use colnk.Agent.Files.Keeps.Queries.{
  attr-Keeps, lookup_child-Keeps, read_dir_all-Keeps, readlink-Keeps,
}
use colnk.Agent.Files.Keeps.Contents.{
  read-Keeps, write_node-Keeps, fsync-Keeps, flush-Keeps, setattr-Keeps,
}

-- A call of the kernel on the node with a number; the fresh attributes are those that it passes.
pub data Call : Type 0 where
  on_attr : ℕ → FuseAttr → Call
  on_lookup : ℕ → Bytes → FuseAttr → Call
  on_read_dir on_readlink on_fsync on_flush on_forget : ℕ → Call
  on_read : ℕ → ℕ → ℕ → Call
  on_write : ℕ → ℕ → Bytes → Call
  on_setattr : ℕ → SetattrRequest → FuseAttr → Call
  on_mkdir on_create : ℕ → Bytes → ℕ → Call
  on_symlink : ℕ → Bytes → Bytes → Call
  on_remove : ℕ → Bytes → Call
  on_rename : ℕ → Bytes → Option ℕ → Bytes → Call

module _ {R : Type 0} (calls : RemoteCalls R) (joined : ReadBlockKey → Result Bytes) (now : ℕ) where
  abbrev drop_result : {A : Type 0} → Io (RemoteFs R) A → Io (RemoteFs R) (Unit {0})
  drop_result m = m >>= λ _. pure tt

  unfoldable pub serve : Call → Io (RemoteFs R) (Unit {0})
  unfolding attr lookup_child read_dir_all readlink read write_node fsync flush setattr mkdir create
      symlink remove rename on_nodes forget
  serve (on_attr id target) = drop_result (attr calls now id target)
  serve (on_lookup id name fresh) = drop_result (lookup_child calls now id name fresh)
  serve (on_read_dir id) = drop_result (read_dir_all calls now id)
  serve (on_readlink id) = drop_result (readlink calls now id)
  serve (on_fsync id) = fsync calls joined now id
  serve (on_flush id) = flush calls joined now id
  serve (on_forget id) = on_nodes (forget id)
  serve (on_read id offset size) = drop_result (read calls joined now id offset size)
  serve (on_write id offset content) = drop_result (write_node calls joined now id offset content)
  serve (on_setattr id request target) = drop_result (setattr calls now id request target)
  serve (on_mkdir id name mode) = drop_result (mkdir calls now id name mode)
  serve (on_create id name mode) = drop_result (create calls now id name mode)
  serve (on_symlink id name target) = drop_result (symlink calls now id name target)
  serve (on_remove id name) = remove calls now id name
  serve (on_rename id old_name target new_name) = rename calls now id old_name target new_name

  abbrev left_state : Outcome (RemoteFs R) (Unit {0}) → RemoteFs R
  left_state (done _ fs) = fs
  left_state (failed _ fs) = fs

  -- The state after the calls; one that fails is answered with its error, and the next one is served.
  unfoldable pub serve_all : List Call → RemoteFs R → RemoteFs R
  unfolding serve
  serve_all [] fs = fs
  serve_all (call ∷ rest) fs = serve_all rest (left_state (serve call fs))

  serve-Keeps : (call : Call) → Keeps (serve call)
  unfolding serve
  serve-Keeps (on_attr id target) = search (keeps, attr-Keeps)
  serve-Keeps (on_lookup id name fresh) = search (keeps, lookup_child-Keeps)
  serve-Keeps (on_read_dir id) = search (keeps, read_dir_all-Keeps)
  serve-Keeps (on_readlink id) = search (keeps, readlink-Keeps)
  serve-Keeps (on_fsync id) = fsync-Keeps calls joined now id
  serve-Keeps (on_flush id) = flush-Keeps calls joined now id
  serve-Keeps (on_forget id) = on_nodes-Keeps _ (forget-IsRegistry id)
  serve-Keeps (on_read id offset size) = search (keeps, read-Keeps)
  serve-Keeps (on_write id offset content) = search (keeps, write_node-Keeps)
  serve-Keeps (on_setattr id request target) = search (keeps, setattr-Keeps)
  serve-Keeps (on_mkdir id name mode) = search (keeps, mkdir-Keeps)
  serve-Keeps (on_create id name mode) = search (keeps, create-Keeps)
  serve-Keeps (on_symlink id name target) = search (keeps, symlink-Keeps)
  serve-Keeps (on_remove id name) = remove-Keeps calls now id name
  serve-Keeps (on_rename id old_name target new_name) =
      rename-Keeps calls now id old_name target new_name

  left_state-IsRegistry :
      (o : Outcome (RemoteFs R) (Unit {0})) → Always IsRegistry o → IsRegistry (left_state o)
  left_state-IsRegistry (done _ fs) h = h
  left_state-IsRegistry (failed _ fs) h = h

  -- Whatever the kernel calls, in whatever order, and whichever of the calls fail: the node that the table
  -- holds for a path exists and has that path.
  pub serve_all-IsRegistry :
      (requests : List Call) (fs : RemoteFs R) → IsRegistry fs → IsRegistry (serve_all requests fs)
  unfolding serve_all
  serve_all-IsRegistry [] fs r = r
  serve_all-IsRegistry (call ∷ rest) fs r =
      serve_all-IsRegistry rest (left_state (serve call fs))
        (left_state-IsRegistry (serve call fs) ((serve-Keeps call).keep fs r))
