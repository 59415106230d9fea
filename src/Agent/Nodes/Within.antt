-- ===== src/Agent/Nodes/Within.antt =====
-- is_within: a path and what lies below it, as renameNodes and removeNodes of
-- pkg/agent/filesystem/nodes_linux.go test it.
use colnk.Common.{
  ◌≡◌, refl, sym, ◌∙◌, Bytes, bytes_beq, bytes_beq_iff, has_prefix, has_prefix-append,
  has_prefix-split, trim_prefix, drop, drop-append, length, [], ◌∷◌, ◌++◌, true, false, Bool-cases,
  inl, inr, append_assoc, append-nil, nat_beq_iff, ◌||◌, arith,
}
use colnk.Common.Paths.{slash}
use colnk.Agent.Nodes.{is_within}

-- What may follow the root in a path within it.
abbrev IsTail : Bytes → Type 0
IsTail [] = Unit {0}
IsTail (c ∷ s) = c ≡ slash

is_within-split :
    (root path : Bytes) → is_within root path ≡ true → (t : Bytes) × (path ≡ root ++ t) × IsTail t
unfolding is_within
is_within-split root path h = elim (Bool-cases (bytes_beq path root)) [
  | inl e ↦ ([], (bytes_beq_iff path root).0 e ∙ sym (append-nil root), tt)
  | inr e ↦
      let below : has_prefix path (root ++ slash ∷ []) ≡ true = ground arith in
      let split = has_prefix-split path (root ++ slash ∷ []) below in
      let rest : Bytes = drop (length (root ++ slash ∷ [])) path in
      (slash ∷ rest, split ∙ append_assoc root (slash ∷ []) rest, refl)
]

is_within-append : (root t : Bytes) → IsTail t → is_within root (root ++ t) ≡ true
unfolding is_within
is_within-append root [] h = ground (arith, append-nil root, bytes_beq_iff (root ++ []) root)
is_within-append root (c ∷ t) h =
    let e : root ++ c ∷ t ≡ (root ++ slash ∷ []) ++ t =
      rw (h) (sym (append_assoc root (slash ∷ []) t)) in
    rw (e) (ground (arith, has_prefix-append (root ++ slash ∷ []) t))

trim_prefix-append : (root t : Bytes) → trim_prefix (root ++ t) root ≡ t
unfolding trim_prefix
trim_prefix-append root t = ground (arith, has_prefix-append root t, drop-append root t)

-- The path that a path gets when its root is renamed.
abbrev pub moved : Bytes → Bytes → Bytes → Bytes
moved old_path new_path path = new_path ++ trim_prefix path old_path

pub moved-is_within :
    (old_path new_path path : Bytes)
    → is_within old_path path ≡ true
    → (is_within new_path (moved old_path new_path path) ≡ true)
      × (moved new_path old_path (moved old_path new_path path) ≡ path)
moved-is_within old_path new_path path h =
    let (t, e, tail) = is_within-split old_path path h in
    rw (e, trim_prefix-append old_path t, trim_prefix-append new_path t)
      (is_within-append new_path t tail, refl)

comparable :
    (a b s t : Bytes)
    → IsTail s
    → IsTail t
    → a ++ s ≡ b ++ t
    → (is_within a b || is_within b a) ≡ true
unfolding is_within
comparable [] [] s t h k e = refl
comparable [] (x ∷ b) [] t h k e = cc
comparable [] (x ∷ b) (c ∷ s) t h k e = ground (arith, nat_beq_iff x slash)
comparable (x ∷ a) [] s [] h k e = cc
comparable (x ∷ a) [] s (c ∷ t) h k e = ground (arith, nat_beq_iff x slash)
comparable (x ∷ a) (y ∷ b) s t h k e = ground (arith, comparable a b s t h k, nat_beq_iff x y)

-- No path lies within two roots that are apart.
pub is_within_apart :
    (old_path new_path path : Bytes)
    → is_within old_path new_path ≡ false
    → is_within new_path old_path ≡ false
    → is_within old_path path ≡ true
    → is_within new_path path ≡ false
is_within_apart old_path new_path path apart apart' h =
    elim (Bool-cases (is_within new_path path)) [
      | inr e ↦ e
      | inl e ↦
          let (s, p, k) = is_within-split old_path path h in
          let (t, q, l) = is_within-split new_path path e in
          absurd (ground (arith, comparable old_path new_path s t k l (sym p ∙ q)))
    ]
