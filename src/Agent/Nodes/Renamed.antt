-- ===== src/Agent/Nodes/Renamed.antt =====
-- The table of nodes after renameNodes (pkg/agent/filesystem/nodes_linux.go).
use colnk.Common.{
  ℕ, ◌≡◌, refl, Bytes, [], ◌∷◌, Option, none, some, Option-cases, inl, inr, ◌⊎◌, Map, lookup,
  lookup-insert, lookup-delete, insert, delete, bytes_eq, bytes_beq_iff, arith, Distinct,
  Bool-cases, true, false, if◌then◌else◌,
}
use colnk.Agent.Nodes.{RemoteFs, rename_nodes_loop, rename_nodes, move_node, is_within}
use colnk.Agent.Nodes.Within.{moved, moved-is_within, is_within_apart}
use colnk.Agent.Nodes.Registry.{IsRegistry}

abbrev pub or_else : Option ℕ → Option ℕ → Option ℕ
or_else none other = other
or_else (some id) other = some id

abbrev pub when_absent : Option ℕ → Option ℕ → Option ℕ
when_absent none other = other
when_absent (some _) other = none

-- What the table holds for a path when the renaming of the paths of `rest` is still to come.
abbrev after : Bytes → Bytes → Map Bytes ℕ → Map Bytes ℕ → Bytes → Option ℕ
after old_path new_path rest nodes path =
    let source = moved new_path old_path path in
    if is_within old_path path
    then when_absent (lookup path rest) (lookup path nodes)
    else if is_within new_path path
    then elim (lookup source rest) [
      | none ↦ lookup path nodes
      | some _ ↦ or_else (lookup source nodes) (lookup path nodes)
    ]
    else lookup path nodes

module _ {R : Type 0} (old_path new_path current : Bytes) (i : ℕ) (rest : Map Bytes ℕ)
    (fs : RemoteFs R) where
  -- A round that moves nothing, and one that moves a node.
  round-skip :
      (is_within old_path current ≡ false) ⊎ (lookup current fs.nodes ≡ none)
      → rename_nodes_loop old_path new_path ((current, i) ∷ rest) fs
        ≡ rename_nodes_loop old_path new_path rest fs
  unfolding rename_nodes_loop
  round-skip (inl e) = rw (e) refl
  round-skip (inr e) =
      rw (e) (elim (Bool-cases (is_within old_path current)) [
        | inl h ↦ rw (h) refl
        | inr h ↦ rw (h) refl
      ])

  round-move :
      (id : ℕ)
      → is_within old_path current ≡ true
      → lookup current fs.nodes ≡ some id
      → rename_nodes_loop old_path new_path ((current, i) ∷ rest) fs
        ≡ rename_nodes_loop old_path new_path rest (move_node old_path new_path current id fs)
  unfolding rename_nodes_loop
  round-move id e g = rw (e, g) refl

module _ (old_path new_path : Bytes) (apart : is_within old_path new_path ≡ false)
    (apart' : is_within new_path old_path ≡ false) where
  after-skip :
      (c : Bytes) (i : ℕ) (rest nodes : Map Bytes ℕ) (path : Bytes)
      → (is_within old_path c ≡ false) ⊎ (lookup c nodes ≡ none)
      → after old_path new_path ((c, i) ∷ rest) nodes path ≡ after old_path new_path rest nodes path
  unfolding lookup
  after-skip c i rest nodes path skipped = ground (
    arith,
    moved-is_within new_path old_path path,
    bytes_beq_iff c path,
    bytes_beq_iff c (moved new_path old_path path),
  )

  after-move :
      (c : Bytes) (i id : ℕ) (rest nodes : Map Bytes ℕ) (path : Bytes)
      → lookup c rest ≡ none
      → is_within old_path c ≡ true
      → lookup c nodes ≡ some id
      → after old_path new_path ((c, i) ∷ rest) nodes path
        ≡ after old_path new_path rest (insert (moved old_path new_path c) id (delete c nodes)) path
  unfolding lookup
  after-move c i id rest nodes path once e g = ground (
    arith,
    moved-is_within new_path old_path path,
    moved-is_within old_path new_path c,
    is_within_apart old_path new_path c apart apart' e,
    is_within_apart old_path new_path path apart apart',
    lookup-insert (moved old_path new_path c) path id (delete c nodes),
    lookup-insert (moved old_path new_path c) (moved new_path old_path path) id (delete c nodes),
    lookup-delete c path nodes,
    lookup-delete c (moved new_path old_path path) nodes,
    bytes_beq_iff c path,
    bytes_beq_iff (moved old_path new_path c) path,
    bytes_beq_iff (moved old_path new_path c) (moved new_path old_path path),
    is_within_apart old_path new_path (moved new_path old_path path) apart apart',
    bytes_beq_iff c (moved new_path old_path path),
  )

  lookup-rename_nodes_loop :
      {R : Type 0} (rest : Map Bytes ℕ) (fs : RemoteFs R) (path : Bytes)
      → Distinct rest
      → lookup path (rename_nodes_loop old_path new_path rest fs).nodes
        ≡ after old_path new_path rest fs.nodes path
  unfolding rename_nodes_loop lookup move_node
  lookup-rename_nodes_loop [] fs path d = ground arith
  lookup-rename_nodes_loop ((c, i) ∷ rest) fs path d = elim (Bool-cases (is_within old_path c)) [
    | inr e ↦
        rw
          (
            round-skip old_path new_path c i rest fs (inl e),
            after-skip c i rest fs.nodes path (inl e),
          )
          (lookup-rename_nodes_loop rest fs path d.1)
    | inl e ↦ elim (Option-cases (lookup c fs.nodes)) [
      | inl g ↦
          rw
            (
              round-skip old_path new_path c i rest fs (inr g),
              after-skip c i rest fs.nodes path (inr g),
            )
            (lookup-rename_nodes_loop rest fs path d.1)
      | inr (id, g) ↦
          rw
            (
              round-move old_path new_path c i rest fs id e g,
              after-move c i id rest fs.nodes path d.0 e g,
            )
            (lookup-rename_nodes_loop rest (move_node old_path new_path c id fs) path d.1)
    ]
  ]

  -- The nodes at and below the old path are found at the same places of the new path, none is left, and
  -- all others stay, where no node of the old path takes their place.
  pub lookup-rename_nodes :
      {R : Type 0} (fs : RemoteFs R) (path : Bytes)
      → IsRegistry fs
      → lookup path (rename_nodes old_path new_path fs).nodes ≡ (
          if is_within old_path path
          then none
          else if is_within new_path path
          then or_else (lookup (moved new_path old_path path) fs.nodes) (lookup path fs.nodes)
          else lookup path fs.nodes)
  unfolding rename_nodes IsRegistry
  lookup-rename_nodes fs path registry =
      rw (lookup-rename_nodes_loop fs.nodes fs path registry.0) (ground arith)
