-- ===== src/Agent/Files/Keeps/Entries.antt =====
-- The table of nodes through Mkdir, Create, Remove, Rename and Symlink
-- (pkg/agent/filesystem/nodes_linux.go).
use colnk.Common.{ℕ, Bytes, Option, none, some, pos, codes, ◌>>=◌, ◌>>◌, pure}
use colnk.Protocol.Types.{Request}
use colnk.Agent.WriteBack.{request_for}
use colnk.Agent.Symlink.{local_symlink_target}
use colnk.Agent.Files.{RemoteCalls, node_at, path_of, child_path}
use colnk.Agent.Files.Entries.{make, mkdir, create, symlink, flush_path, remove, rename_to, rename}
use colnk.Agent.Files.Keeps.{Keeps, keeps, fs_call-Keeps}

module _ {R : Type 0} (calls : RemoteCalls R) (now : ℕ) where
  pub make-Keeps : (request : Request) (path : Bytes) → Keeps (make calls now request path)
  unfolding make
  make-Keeps request path = search (keeps, fs_call-Keeps)

  pub mkdir-Keeps : (id : ℕ) (name : Bytes) (mode : ℕ) → Keeps (mkdir calls now id name mode)
  unfolding mkdir
  mkdir-Keeps id name mode = search (keeps, make-Keeps)

  pub create-Keeps : (id : ℕ) (name : Bytes) (mode : ℕ) → Keeps (create calls now id name mode)
  unfolding create
  create-Keeps id name mode = search (keeps, make-Keeps)

  pub flush_path-Keeps : (path : Bytes) → Keeps (flush_path calls now path)
  unfolding flush_path
  flush_path-Keeps path = search keeps

  pub remove-Keeps : (id : ℕ) (name : Bytes) → Keeps (remove calls now id name)
  unfolding remove
  remove-Keeps id name = search (keeps, flush_path-Keeps, fs_call-Keeps)

  pub rename_to-Keeps :
      (id : ℕ) (old_name : Bytes) (target : ℕ) (new_name : Bytes)
      → Keeps (rename_to calls now id old_name target new_name)
  unfolding rename_to
  rename_to-Keeps id old_name target new_name =
      search (keeps, flush_path-Keeps, fs_call-Keeps) depth 14

  pub rename-Keeps :
      (id : ℕ) (old_name : Bytes) (target : Option ℕ) (new_name : Bytes)
      → Keeps (rename calls now id old_name target new_name)
  unfolding rename
  rename-Keeps id old_name none new_name = search keeps
  rename-Keeps id old_name (some target) new_name = rename_to-Keeps id old_name target new_name

  pub symlink-Keeps : (id : ℕ) (name target : Bytes) → Keeps (symlink calls now id name target)
  unfolding symlink
  symlink-Keeps id name target = record { keep = λ fs. (linked fs.mountpoint).keep fs }
    where
      linked :
          (mountpoint : Bytes)
          → Keeps (do
            path ← child_path id name
            child ← node_at path
            created ← path_of child
            make calls now
                (record (request_for (codes "symlink") created (pos 0)) {
                  target = local_symlink_target mountpoint target;
                })
                created
            pure child)
      linked mountpoint = search (keeps, make-Keeps)
