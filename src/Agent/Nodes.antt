-- ===== src/Agent/Nodes.antt =====
-- pkg/agent/filesystem/nodes_linux.go: the nodes of the mounted file system and the table that finds a
-- node by its path. A node is an object with an identity: the kernel holds on to it when its path changes
-- or when the table forgets it, so the table holds numbers, and the objects are a function of the number.
pub mod Registry
pub mod Renamed
pub mod Within
use colnk.Common.{
  ℕ, ◌+◌, Bytes, bytes_beq, has_prefix, trim_prefix, List, [], ◌∷◌, ◌++◌, Option, none, some, Bool,
  true, false, ◌||◌, nat_beq, if◌then◌else◌, Map, lookup, insert, delete, delete_if, bytes_eq, ℤ,
  Outcome, done, failed, Io,
}
use colnk.Common.Paths.{slash}
use colnk.Agent.WriteBlock.{PendingWriteBlock}
use colnk.Agent.WriteBack.{Node}
use colnk.Agent.Changes.{Caches}

-- The fields of a node that are its own.
pub record RemoteNode : Type 0 where
  pub path : Bytes
  pub write_blocks : Map ℕ PendingWriteBlock
  pub write_mtime : Option ℤ

-- remoteFS: `nodes` is the table, `created` the number of objects so far, `remote` the state of the other
-- end, `budget` what is left of writeBudget.
pub record RemoteFs (R : Type 0) : Type 0 where
  pub nodes : Map Bytes ℕ
  pub objects : ℕ → RemoteNode
  pub created : ℕ
  pub budget : ℕ
  pub remote : R
  pub caches : Caches
  pub mountpoint : Bytes

-- `&remoteNode{filesystem: f, path: remotePath}`
abbrev pub new_node : Bytes → RemoteNode
new_node path = record { path = path; write_blocks = []; write_mtime = none }

-- The objects after an assignment to one of them.
abbrev pub update_object : ℕ → RemoteNode → (ℕ → RemoteNode) → ℕ → RemoteNode
update_object id object objects i = if nat_beq i id then object else objects i

-- The paths that renameNodes and removeNodes are about.
unfoldable pub is_within : Bytes → Bytes → Bool
is_within root path = bytes_beq path root || has_prefix path (root ++ slash ∷ [])

-- `f.nodes[n.path] == n`
abbrev pub registered_as : ℕ → Option ℕ → Bool
registered_as id none = false
registered_as id (some other) = nat_beq other id

module _ {R : Type 0} where
  unfoldable pub node : Bytes → RemoteFs R → RemoteFs R × ℕ
  unfolding lookup insert
  node path fs = elim (lookup path fs.nodes) [
    | some id ↦ (fs, id)
    | none ↦ (
      record fs {
        objects = update_object fs.created (new_node path) fs.objects;
        nodes = insert path fs.created fs.nodes;
        created = fs.created + 1;
      },
      fs.created,
    )
  ]

  abbrev pub root : RemoteFs R → RemoteFs R × ℕ
  root = node []

  abbrev pub remote_path : ℕ → RemoteFs R → Bytes
  remote_path id fs = (fs.objects id).path

  unfoldable pub forget : ℕ → RemoteFs R → RemoteFs R
  unfolding lookup delete
  forget id fs =
      if registered_as id (lookup (remote_path id fs) fs.nodes)
      then record fs { nodes = delete (remote_path id fs) fs.nodes }
      else fs

  -- The body of the loop of renameNodes, for a path with its node.
  unfoldable pub move_node : Bytes → Bytes → Bytes → ℕ → RemoteFs R → RemoteFs R
  unfolding insert delete trim_prefix
  move_node old_path new_path current id fs =
      let updated = new_path ++ trim_prefix current old_path in
      record fs {
        objects = update_object id (record (fs.objects id) { path = updated }) fs.objects;
        nodes = insert updated id (delete current fs.nodes);
      }

  -- `for currentPath, node := range f.nodes` over the paths that the table has at the start. A path that
  -- is gone when its turn comes is left out, as Go does.
  unfoldable pub rename_nodes_loop : Bytes → Bytes → Map Bytes ℕ → RemoteFs R → RemoteFs R
  unfolding is_within move_node lookup
  rename_nodes_loop old_path new_path [] fs = fs
  rename_nodes_loop old_path new_path ((current, _) ∷ rest) fs =
      rename_nodes_loop old_path new_path rest (
        if is_within old_path current
        then elim (lookup current fs.nodes) [
          | none ↦ fs
          | some id ↦ move_node old_path new_path current id fs
        ]
        else fs)

  unfoldable pub rename_nodes : Bytes → Bytes → RemoteFs R → RemoteFs R
  unfolding rename_nodes_loop
  rename_nodes old_path new_path fs = rename_nodes_loop old_path new_path fs.nodes fs

  unfoldable pub remove_nodes : Bytes → RemoteFs R → RemoteFs R
  unfolding is_within delete_if
  remove_nodes path fs = record fs {
    nodes = delete_if (λ current _. is_within path current) fs.nodes;
  }

  -- A node with what it shares, the state of the code in write_linux.go, and back. That code reads the path
  -- of its node and never changes it.
  abbrev pub focus : ℕ → RemoteFs R → Node R
  focus id fs = record {
    path = (fs.objects id).path;
    write_blocks = (fs.objects id).write_blocks;
    write_mtime = (fs.objects id).write_mtime;
    budget = fs.budget;
    remote = fs.remote;
    caches = fs.caches;
  }

  abbrev pub unfocus : ℕ → Node R → RemoteFs R → RemoteFs R
  unfocus id n fs = record fs {
    objects =
        update_object id
          (record {
            path = (fs.objects id).path;
            write_blocks = n.write_blocks;
            write_mtime = n.write_mtime;
          })
          fs.objects;
    budget = n.budget;
    remote = n.remote;
    caches = n.caches;
  }

  -- A method of the node with this number.
  unfoldable pub on_node {ℓ} : {A : Type ℓ} → ℕ → Io (Node R) A → Io (RemoteFs R) A
  on_node id m fs = elim (m (focus id fs)) [
    | done a n ↦ done a (unfocus id n fs)
    | failed e n ↦ failed e (unfocus id n fs)
  ]
