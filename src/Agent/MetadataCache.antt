-- ===== src/Agent/MetadataCache.antt =====
-- pkg/agent/filesystem/cache.go, metadataCache: attributes, listings and link targets by path, with a
-- time to live and eviction of the entry that was used least recently. Each reading of the clock is an
-- argument. A nil slice or map is an empty list or `none`. Each call holds the lock throughout, but
-- for `put_attr`, which takes it twice.
pub mod Operations
pub mod Capacity
pub mod Recent
pub mod Coherence
pub mod Below
pub mod Invalidation
pub mod Listings
use colnk.Common.{
  ℕ, zero, suc, ◌+◌, ◌%◌, ◌^◌, ◌<◌, Bytes, codes, is_empty, bytes_beq, trim_suffix, has_prefix,
  length, drop, take, get_elem?, List, [], ◌∷◌, ◌++◌, Option, none, some, Bool, true, false, ◌&&◌,
  ◌||◌, not, ltb, nat_beq, if◌then◌else◌, Map, lookup, insert, delete, bytes_eq,
}
use colnk.Common.Paths.{slash, path_split}
use colnk.Protocol.Types.{FileAttr, DirEntry}

pub record MetadataEntry : Type 0 where
  pub path : Bytes
  pub attr : Option FileAttr
  pub dir : List DirEntry
  pub dir_attrs : Option (Map Bytes FileAttr)
  pub dir_links : Option (Map Bytes Bytes)
  pub link : Option Bytes
  pub missing : Bool
  pub expires : ℕ
  pub sequence : ℕ

pub record MetadataCache : Type 0 where
  pub entries : Map Bytes MetadataEntry
  pub capacity : ℕ
  pub ttl : ℕ
  pub sequence : ℕ

abbrev pub new_metadata_cache : ℕ → ℕ → MetadataCache
new_metadata_cache capacity ttl = record {
  entries = [];
  capacity = capacity;
  ttl = ttl;
  sequence = 0;
}

-- `metadataEntry{path: path}`, the other fields at their zero values.
abbrev pub entry_at : Bytes → MetadataEntry
entry_at path = record {
  path = path;
  attr = none;
  dir = [];
  dir_attrs = none;
  dir_links = none;
  link = none;
  missing = false;
  expires = 0;
  sequence = 0;
}

abbrev pub attr_key : Bytes → Bytes
attr_key path = codes "attr:" ++ path

abbrev pub dir_key : Bytes → Bytes
dir_key path = codes "dir:" ++ path

abbrev pub link_key : Bytes → Bytes
link_key path = codes "link:" ++ path

abbrev pub missing_key : Bytes → Bytes
missing_key path = codes "missing:" ++ path

-- A uint64 counter.
abbrev pub next_sequence : ℕ → ℕ
next_sequence n = (n + 1) % 2 ^ 64

unfoldable pub parent_and_name : Bytes → Bytes × Bytes
unfolding path_split trim_suffix
parent_and_name value = (trim_suffix (path_split value).0 (slash ∷ []), (path_split value).1)

-- `candidate` lies strictly below `parent`; every path but "" lies below "".
unfoldable pub path_prefix : Bytes → Bytes → Bool
path_prefix candidate parent =
    if is_empty parent
    then not (is_empty candidate)
    else ltb (length parent) (length candidate)
      && has_prefix candidate parent
      && is_slash (get_elem? candidate (length parent))
  where
    is_slash : Option ℕ → Bool
    is_slash none = false
    is_slash (some c) = nat_beq c slash

-- getLocked: an expired entry is deleted; a hit becomes the most recent entry.
unfoldable pub get_locked : Bytes → ℕ → MetadataCache → MetadataCache × Option MetadataEntry
get_locked key now cache = elim (lookup key cache.entries) [
  | none ↦ (cache, none)
  | some entry ↦
      if ltb entry.expires now
      then (record cache { entries = delete key cache.entries }, none)
      else let s = next_sequence cache.sequence in
        let entry' = record entry { sequence = s } in
        (record cache { entries = insert key entry' cache.entries; sequence = s }, some entry')
]

-- The loop of `evictOldestLocked`, with its two variables: the key that it settles on.
unfoldable pub oldest : Bytes → ℕ → Map Bytes MetadataEntry → Bytes
oldest key seq [] = key
oldest key seq ((k, entry) ∷ rest) =
    let older = is_empty key || ltb entry.sequence seq in
    oldest (if older then k else key) (if older then entry.sequence else seq) rest

unfoldable pub evict_oldest_locked : MetadataCache → MetadataCache
evict_oldest_locked cache = record cache {
  entries = delete (oldest [] 0 cache.entries) cache.entries;
}

-- `for len(cache.entries) > cache.capacity`, with one round for each entry as fuel.
unfoldable pub evict_while : ℕ → MetadataCache → MetadataCache
evict_while zero cache = cache
evict_while (suc fuel) cache =
    let rest = evict_while fuel (evict_oldest_locked cache) in
    if ltb cache.capacity (length cache.entries) then rest else cache

unfoldable pub put : Bytes → MetadataEntry → ℕ → MetadataCache → MetadataCache
put key entry now cache =
    let s = next_sequence cache.sequence in
    let entries =
      insert key (record entry { sequence = s; expires = now + cache.ttl }) cache.entries in
    evict_while (length entries) (record cache { entries = entries; sequence = s })
