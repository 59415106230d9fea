-- ===== src/Tests/NodesTests.antt =====
-- Nodes and the kernel's calls at concrete inputs.
use colnk.Common.{
  ℕ, ◌+◌, ◌≡◌, refl, codes, [], ◌∷◌, none, some, false, err, read_failed, done, if◌then◌else◌,
  lookup, bytes_eq, ◌↔◌, ◌≤◌, All,
}
use colnk.Agent.WriteBlock.{PendingWriteBlock}
use colnk.Agent.MetadataCache.{new_metadata_cache}
use colnk.Agent.ReadBlockCache.{new_read_block_cache}
use colnk.Agent.Nodes.{RemoteFs, new_node, node, rename_nodes, is_within}
use colnk.Agent.Nodes.Within.{moved}
use colnk.Agent.Nodes.Registry.{IsRegistry, node-IsRegistry}
use colnk.Agent.Nodes.Renamed.{or_else, lookup-rename_nodes}
use colnk.Agent.Attributes.{grow}
use colnk.Agent.Attributes.Pending.{CoversAll, grow-le}
use colnk.Agent.Files.{RemoteCalls}
use colnk.Agent.Files.Served.{on_mkdir, on_rename, on_forget, serve_all, serve_all-IsRegistry}
use colnk.Provider.FileService.{plain_response}

abbrev empty_fs : RemoteFs ℕ
empty_fs = record {
  nodes = [];
  objects = λ _. new_node [];
  created = 0;
  budget = 128;
  remote = 0;
  caches = record { metadata = new_metadata_cache 8 10; blocks = new_read_block_cache 8 10 };
  mountpoint = codes "/mnt";
}

empty_fs-IsRegistry : IsRegistry empty_fs
unfolding IsRegistry lookup
empty_fs-IsRegistry = (tt, λ path id h. cc)

abbrev two_nodes : RemoteFs ℕ
two_nodes = (node (codes "a/b") (node (codes "a") empty_fs).0).0

two_nodes-IsRegistry : IsRegistry two_nodes
two_nodes-IsRegistry =
    (node-IsRegistry (codes "a/b") (node (codes "a") empty_fs).0
      (node-IsRegistry (codes "a") empty_fs empty_fs-IsRegistry).0).0

apart_a : is_within (codes "a") (codes "c") ≡ false
unfolding is_within
apart_a = refl

apart_c : is_within (codes "c") (codes "a") ≡ false
unfolding is_within
apart_c = refl

lookup-rename_nodes_example :
    lookup (codes "c/b") (rename_nodes (codes "a") (codes "c") two_nodes).nodes ≡ (
      if is_within (codes "a") (codes "c/b")
      then none
      else if is_within (codes "c") (codes "c/b")
      then or_else
          (lookup (moved (codes "c") (codes "a") (codes "c/b")) two_nodes.nodes)
          (lookup (codes "c/b") two_nodes.nodes)
      else lookup (codes "c/b") two_nodes.nodes)
lookup-rename_nodes_example =
    lookup-rename_nodes (codes "a") (codes "c") apart_a apart_c two_nodes (codes "c/b")
      two_nodes-IsRegistry

-- The other end counts its calls.
abbrev counting : RemoteCalls ℕ
counting = record {
  file = λ request content n. done (plain_response none, []) (n + 1);
  read_dir = λ path n. done [] (n + 1);
}

serve_all-IsRegistry_example : IsRegistry (
    serve_all counting
      (λ _. err read_failed)
      0
      (on_mkdir 0 (codes "x") 493 ∷ on_rename 0 (codes "x") (some 0) (codes "y") ∷ on_forget 1 ∷ [])
      two_nodes)
serve_all-IsRegistry_example =
    serve_all-IsRegistry counting (λ _. err read_failed) 0 _ two_nodes two_nodes-IsRegistry

abbrev pending : PendingWriteBlock
pending = record { content = codes "abcd"; dirty = record { start = 1; end = 3 } ∷ [] }

grow-le_example :
    (grow ((0, pending) ∷ []) 2 ≤ 3) ↔ ((2 ≤ 3) × All (CoversAll 3) ((0, pending) ∷ []))
grow-le_example = grow-le ((0, pending) ∷ []) 2 3
