-- ===== src/Agent/Nodes/Registry.antt =====
-- The table of nodes and the objects (pkg/agent/filesystem/nodes_linux.go).
use colnk.Common.{
  ℕ, ◌<◌, ◌≡◌, Bytes, [], ◌∷◌, ◌++◌, some, Option-cases, inl, inr, Map, lookup, lookup-insert,
  lookup-delete, delete, bytes_eq, bytes_beq_iff, trim_prefix, arith, Distinct, insert-Distinct,
  delete-Distinct, delete_if-Distinct, lookup-delete_if, nat_beq_iff, Bool-cases,
}
use colnk.Agent.Nodes.{
  RemoteFs, node, remote_path, forget, move_node, rename_nodes_loop, rename_nodes, remove_nodes,
  is_within, registered_as,
}

-- The node that the table holds for a path exists and has that path.
unfoldable pub IsRegistry : {R : Type 0} → RemoteFs R → Type 0
IsRegistry fs =
    Distinct fs.nodes
    × ((path : Bytes) (id : ℕ)
        → lookup path fs.nodes ≡ some id
        → (id < fs.created) × ((fs.objects id).path ≡ path))

module _ {R : Type 0} where
  -- The table finds the node that `node` answers with.
  pub node-IsRegistry :
      (path : Bytes) (fs : RemoteFs R)
      → IsRegistry fs
      → IsRegistry (node path fs).0 × (lookup path (node path fs).0.nodes ≡ some (node path fs).1)
  unfolding IsRegistry node
  node-IsRegistry path fs (distinct, h) = elim (Option-cases (lookup path fs.nodes)) [
    | inl e ↦
        rw (e, node)
          (
            (
              insert-Distinct path fs.created fs.nodes distinct,
              λ p i. ground (
                arith,
                h p i,
                lookup-insert path p fs.created fs.nodes,
                bytes_beq_iff path p,
                nat_beq_iff i fs.created,
              ),
            ),
            ground (arith, lookup-insert path path fs.created fs.nodes, bytes_beq_iff path path),
          )
    | inr (id, e) ↦ rw (e, node) ((distinct, h), e)
  ]

  pub forget-IsRegistry : (id : ℕ) (fs : RemoteFs R) → IsRegistry fs → IsRegistry (forget id fs)
  unfolding IsRegistry forget
  forget-IsRegistry id fs (distinct, h) =
      elim (Bool-cases (registered_as id (lookup (remote_path id fs) fs.nodes))) [
        | inl e ↦
            rw (e, forget)
              (
                delete-Distinct (remote_path id fs) fs.nodes distinct,
                λ p i. ground (arith, h p i, lookup-delete (remote_path id fs) p fs.nodes),
              )
        | inr e ↦ rw (e, forget) (distinct, h)
      ]

  pub remove_nodes-IsRegistry :
      (path : Bytes) (fs : RemoteFs R) → IsRegistry fs → IsRegistry (remove_nodes path fs)
  unfolding IsRegistry remove_nodes
  remove_nodes-IsRegistry path fs (distinct, h) = (
    delete_if-Distinct (λ current _. is_within path current) fs.nodes distinct,
    λ p i. ground (
      arith,
      h p i,
      lookup-delete_if (λ current (_ : ℕ). is_within path current) p fs.nodes distinct,
    ),
  )

  move_node-IsRegistry :
      (old_path new_path current : Bytes) (id : ℕ) (fs : RemoteFs R)
      → lookup current fs.nodes ≡ some id
      → IsRegistry fs
      → IsRegistry (move_node old_path new_path current id fs)
  unfolding IsRegistry move_node
  move_node-IsRegistry old_path new_path current id fs found (distinct, h) =
      let updated : Bytes = new_path ++ trim_prefix current old_path in
      (
        insert-Distinct updated id (delete current fs.nodes)
            (delete-Distinct current fs.nodes distinct),
        λ p i. ground (
          arith,
          h p i,
          h current id found,
          lookup-insert updated p id (delete current fs.nodes),
          lookup-delete current p fs.nodes,
          bytes_beq_iff updated p,
          bytes_beq_iff current p,
          nat_beq_iff i id,
        ),
      )

  rename_nodes_loop-IsRegistry :
      (old_path new_path : Bytes) (rest : Map Bytes ℕ) (fs : RemoteFs R)
      → IsRegistry fs
      → IsRegistry (rename_nodes_loop old_path new_path rest fs)
  unfolding rename_nodes_loop
  rename_nodes_loop-IsRegistry old_path new_path [] fs h = h
  rename_nodes_loop-IsRegistry old_path new_path ((current, _) ∷ rest) fs h =
      elim (Bool-cases (is_within old_path current)) [
        | inr e ↦ rw (e) (rename_nodes_loop-IsRegistry old_path new_path rest fs h)
        | inl e ↦ elim (Option-cases (lookup current fs.nodes)) [
          | inl g ↦ rw (e, g) (rename_nodes_loop-IsRegistry old_path new_path rest fs h)
          | inr (id, g) ↦
              rw (e, g)
                (rename_nodes_loop-IsRegistry old_path new_path rest
                  (move_node old_path new_path current id fs)
                  (move_node-IsRegistry old_path new_path current id fs g h))
        ]
      ]

  pub rename_nodes-IsRegistry :
      (old_path new_path : Bytes) (fs : RemoteFs R)
      → IsRegistry fs
      → IsRegistry (rename_nodes old_path new_path fs)
  unfolding rename_nodes
  rename_nodes-IsRegistry old_path new_path fs =
      rename_nodes_loop-IsRegistry old_path new_path fs.nodes fs
