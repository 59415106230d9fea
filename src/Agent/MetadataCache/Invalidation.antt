-- ===== src/Agent/MetadataCache/Invalidation.antt =====
-- The lookups of the metadata cache (pkg/agent/filesystem/cache.go) behind an invalidation.
use colnk.Common.{
  ℕ, ◌≡◌, refl, inl, inr, Bytes, bytes_eq, none, Bool, true, false, lookup, delete_if, Map,
  Distinct, lookup-delete_if, All, All-lookup, arith, Option-cases,
}
use colnk.Agent.MetadataCache.{
  MetadataEntry, MetadataCache, attr_key, dir_key, link_key, missing_key, get_locked,
  parent_and_name,
}
use colnk.Agent.MetadataCache.Recent.{IsValid}
use colnk.Agent.MetadataCache.Operations.{
  get_attr, get_link, is_missing, get_dir, invalidate, at_or_below, from_parent,
}
use colnk.Agent.MetadataCache.Coherence.{IsFiled, filed_attr, filed_dir, filed_link, filed_missing}

lookup-delete_path :
    (p : Bytes → Bool) (key path : Bytes) (m : Map Bytes MetadataEntry)
    → ((e : MetadataEntry) → IsFiled (key, e) → e.path ≡ path)
    → p path ≡ true
    → Distinct m
    → All IsFiled m
    → lookup key (delete_if (λ _ entry. p entry.path) m) ≡ none
lookup-delete_path p key path m filed hit d f = elim (Option-cases (lookup key m)) [
  | inl miss ↦ rw (lookup-delete_if (λ _ entry. p entry.path) key m d, miss) refl
  | inr (e, found) ↦
      let there : e.path ≡ path = filed e (All-lookup IsFiled key e m found f) in
      let test : p e.path ≡ true = rw there hit in
      rw (lookup-delete_if (λ _ entry. p entry.path) key m d, found) (rw test refl)
]

get_locked-none :
    (key : Bytes) (now : ℕ) (cache : MetadataCache)
    → lookup key cache.entries ≡ none
    → get_locked key now cache ≡ (cache, none)
unfolding get_locked
get_locked-none key now cache h = ground arith

module _ (p q : Bytes) (now later : ℕ) (cache : MetadataCache) where
  abbrev after : MetadataCache
  after = invalidate p cache

  invalidated :
      (key path : Bytes)
      → ((e : MetadataEntry) → IsFiled (key, e) → e.path ≡ path)
      → IsValid cache
      → All IsFiled cache.entries
      → at_or_below p path ≡ true
      → lookup key after.entries ≡ none
  unfolding invalidate
  invalidated key path filed v f hit =
      lookup-delete_path (at_or_below p) key path cache.entries filed hit v.distinct f

  -- No attributes, no negative answer and no link target of a path are served once an ancestor of its
  -- parent, or the parent itself, and so the path too, was invalidated.
  pub lookups-invalidate :
      IsValid cache
      → All IsFiled cache.entries
      → at_or_below p q ≡ true
      → at_or_below p (parent_and_name q).0 ≡ true
      → (get_attr q now later after ≡ (after, none))
        × (is_missing q now later after ≡ (after, false))
        × (get_link q now later after ≡ (after, none))
        × (get_dir q now after ≡ (after, none))
  unfolding get_attr is_missing get_link get_dir from_parent
  lookups-invalidate v f below parent =
      let dir = dir_key (parent_and_name q).0 in
      let no_attr =
        get_locked-none (attr_key q) now after
          (invalidated (attr_key q) q (filed_attr q) v f below) in
      let no_missing =
        get_locked-none (missing_key q) now after
          (invalidated (missing_key q) q (filed_missing q) v f below) in
      let no_link =
        get_locked-none (link_key q) now after
          (invalidated (link_key q) q (filed_link q) v f below) in
      let no_own_dir =
        get_locked-none (dir_key q) now after (invalidated (dir_key q) q (filed_dir q) v f below) in
      let no_dir =
        get_locked-none dir later after
          (invalidated dir (parent_and_name q).0 (filed_dir _) v f parent) in
      (ground arith, ground arith, ground arith, ground arith)
