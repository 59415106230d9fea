-- ===== src/Agent/MetadataCache/Below.antt =====
-- pathPrefix and parentAndName of pkg/agent/filesystem/cache.go.
use colnk.Common.{
  ℕ, zero, suc, ◌≡◌, ◌≢◌, refl, inl, inr, Bytes, bytes_beq_iff, [], ◌∷◌, ◌++◌, none, some, true,
  length, nat_beq_iff, drop, get_elem?, has_prefix-split, has_prefix-append, length-append, arith,
  Option-cases,
}
use colnk.Common.Paths.{slash, split_last, trim_suffix-slash}
use colnk.Agent.MetadataCache.{parent_and_name, path_prefix}
use colnk.Agent.MetadataCache.Operations.{at_or_below}

split_last-append :
    (p rest : Bytes)
    → split_last (p ++ slash ∷ rest) ≡ elim (split_last rest) [
      | none ↦ some (p, rest)
      | some (before, after) ↦ some (p ++ slash ∷ before, after)
    ]
unfolding split_last
split_last-append [] rest = ground arith
split_last-append (c ∷ p) rest = ground (arith, split_last-append p rest)

-- The parent is what stands before the last slash.
parent-split :
    (q before after : Bytes)
    → split_last q ≡ some (before, after)
    → parent_and_name q ≡ (before, after)
unfolding parent_and_name
parent-split q before after h = ground (arith, trim_suffix-slash before)

at_or_below_self : (p : Bytes) → at_or_below p p ≡ true
at_or_below_self p = ground (arith, bytes_beq_iff p p)

get_elem?-append : (p rest : Bytes) (c : ℕ) → get_elem? (p ++ c ∷ rest) (length p) ≡ some c
get_elem?-append [] rest c = refl
get_elem?-append (a ∷ p) rest c = get_elem?-append p rest c

path_prefix-append : (p rest : Bytes) → path_prefix (p ++ slash ∷ rest) p ≡ true
unfolding path_prefix
path_prefix-append [] rest = refl
path_prefix-append (c ∷ p) rest = ground (
  arith,
  has_prefix-append p (slash ∷ rest),
  get_elem?-append p rest slash,
  length-append p (slash ∷ rest),
)

drop-get_elem? :
    (s : Bytes) (n c : ℕ) → get_elem? s n ≡ some c → (rest : Bytes) × (drop n s ≡ c ∷ rest)
drop-get_elem? [] n c h = cc
drop-get_elem? (a ∷ s) zero c h = (s, cc)
drop-get_elem? (a ∷ s) (suc n) c h = drop-get_elem? s n c h

-- A path strictly below a non-empty one continues it behind a slash.
pub path_prefix-split :
    (q p : Bytes) → p ≢ [] → path_prefix q p ≡ true → (rest : Bytes) × (q ≡ p ++ slash ∷ rest)
unfolding path_prefix
path_prefix-split q [] given h = absurd (given refl)
path_prefix-split q (c ∷ p) given h = elim (Option-cases (get_elem? q (length (c ∷ p)))) [
  | inl e ↦ ground arith
  | inr (d, e) ↦
      let (rest, tail) = drop-get_elem? q (length (c ∷ p)) d e in
      (rest, ground (arith, has_prefix-split q (c ∷ p), nat_beq_iff d slash))
]

parent-append :
    (p rest : Bytes) → p ≢ [] → at_or_below p (parent_and_name (p ++ slash ∷ rest)).0 ≡ true
parent-append p rest given = elim (Option-cases (split_last rest)) [
  | inl no_slash ↦
      let last : split_last (p ++ slash ∷ rest) ≡ some (p, rest) =
        ground (arith, split_last-append p rest) in
      rw (parent-split _ p rest last) (at_or_below_self p)
  | inr ((before, after), split) ↦
      let last : split_last (p ++ slash ∷ rest) ≡ some (p ++ slash ∷ before, after) =
        ground (arith, split_last-append p rest) in
      rw (parent-split _ (p ++ slash ∷ before) after last)
        (ground (arith, path_prefix-append p before))
]

everything : (x : Bytes) → at_or_below [] x ≡ true
unfolding path_prefix
everything [] = refl
everything (c ∷ x) = refl

-- The parent of a path strictly below `p` is `p` or lies below `p`.
pub at_or_below-parent :
    (p q : Bytes) → path_prefix q p ≡ true → at_or_below p (parent_and_name q).0 ≡ true
at_or_below-parent [] q h = everything (parent_and_name q).0
at_or_below-parent (c ∷ p) q h =
    let given : c ∷ p ≢ [] = λ e. cc in
    let (rest, e) = path_prefix-split q (c ∷ p) given h in rw e (parent-append (c ∷ p) rest given)
