-- ===== src/Agent/MetadataCache/Listings.antt =====
-- Listings in the metadata cache (pkg/agent/filesystem/cache.go, putDir and getDir).
use colnk.Common.{
  ℕ, zero, suc, ◌≡◌, ◌∙◌, beq_refl, refl, ◌⊎◌, inl, inr, Bytes, bytes_eq, [], Map, none, some, ltb,
  length, lookup, insert, lookup-insert, lookup-delete, arith, Bool-cases,
}
use colnk.Agent.MetadataCache.{
  MetadataCache, MetadataEntry, evict_while, evict_oldest_locked, oldest, put, get_locked, dir_key,
}
use colnk.Agent.MetadataCache.Operations.{put_dir, get_dir}

-- Evictions only remove.
lookup-evict_while :
    (fuel : ℕ) (key : Bytes) (cache : MetadataCache)
    → (lookup key (evict_while fuel cache).entries ≡ none)
      ⊎ (lookup key (evict_while fuel cache).entries ≡ lookup key cache.entries)
unfolding evict_while evict_oldest_locked
lookup-evict_while zero key cache = inr refl
lookup-evict_while (suc fuel) key cache = ground (
  arith,
  Bool-cases (ltb cache.capacity (length cache.entries)),
  lookup-evict_while fuel key (evict_oldest_locked cache),
  lookup-delete (oldest [] 0 cache.entries) key cache.entries,
)

lookup-insert_self :
    (key : Bytes) (entry : MetadataEntry) (entries : Map Bytes MetadataEntry)
    → lookup key (insert key entry entries) ≡ some entry
lookup-insert_self key entry entries =
    ground (arith, lookup-insert key key entry entries, beq_refl key)

-- What getDir makes of an entry without a listing, or of none.
get_dir_miss :
    (path : Bytes) (later : ℕ) (cache : MetadataCache)
    → lookup (dir_key path) cache.entries ≡ none
    → (get_dir path later cache).1 ≡ none
unfolding get_dir get_locked
get_dir_miss path later cache h = ground (arith, h)

get_dir_blank :
    (path : Bytes) (later : ℕ) (cache : MetadataCache) (entry : MetadataEntry)
    → lookup (dir_key path) cache.entries ≡ some entry
    → entry.dir ≡ []
    → (get_dir path later cache).1 ≡ none
unfolding get_dir get_locked
get_dir_blank path later cache entry h e =
    ground (arith, h, e, Bool-cases (ltb entry.expires later))

-- Behind putDir of a listing without entries getDir misses, whatever the cache and the clock.
pub get_dir-put_dir_empty :
    (path : Bytes) (now later : ℕ) (cache : MetadataCache)
    → (get_dir path later (put_dir path [] now cache)).1 ≡ none
unfolding put_dir put
get_dir-put_dir_empty path now later cache = elim (lookup-evict_while _ (dir_key path) _) [
  | inl h ↦ get_dir_miss path later (put_dir path [] now cache) h
  | inr h ↦
      get_dir_blank path later (put_dir path [] now cache) _
        (h ∙ lookup-insert_self (dir_key path) _ cache.entries) refl
]
