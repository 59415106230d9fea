-- ===== src/Agent/MetadataCache/Coherence.antt =====
-- What the metadata cache (pkg/agent/filesystem/cache.go) serves of what was stored.
use colnk.Common.{
  ℕ, ◌+◌, ◌≤◌, ◌<◌, ◌^◌, ◌≡◌, refl, ◌⊎◌, Bytes, bytes_eq, none, some, lookup, delete, All-delete,
  delete-Distinct, arith,
}
use colnk.Protocol.Types.{FileAttr}
use colnk.Agent.MetadataCache.{
  MetadataEntry, MetadataCache, entry_at, attr_key, dir_key, link_key, missing_key, next_sequence,
  get_locked, put,
}
use colnk.Agent.MetadataCache.Recent.{IsValid, stored, lookup-put}
use colnk.Agent.MetadataCache.Operations.{get_attr, put_attr}

-- The answer of `get_locked` depends only on the entry under the key.
get_locked-answer :
    (key : Bytes) (now : ℕ) (cache : MetadataCache) (e : MetadataEntry)
    → lookup key cache.entries ≡ some e
    → now ≤ e.expires
    → (get_locked key now cache).1 ≡ some (record e { sequence = next_sequence cache.sequence })
unfolding get_locked
get_locked-answer key now cache e found live = ground arith

get_locked-expired :
    (key : Bytes) (now : ℕ) (cache : MetadataCache) (e : MetadataEntry)
    → lookup key cache.entries ≡ some e
    → e.expires < now
    → get_locked key now cache ≡ (record cache { entries = delete key cache.entries }, none)
unfolding get_locked
get_locked-expired key now cache e found old = ground arith

delete_missing-IsValid :
    (key : Bytes) (cache : MetadataCache)
    → IsValid cache
    → IsValid (record cache { entries = delete key cache.entries })
delete_missing-IsValid key cache v = record {
  distinct = delete-Distinct key cache.entries v.distinct;
  numbered = All-delete _ key cache.entries v.numbered;
}

get_attr_hit :
    (path : Bytes) (attr : FileAttr) (now later : ℕ) (cache : MetadataCache) (e : MetadataEntry)
    → (get_locked (attr_key path) now cache).1 ≡ some e
    → e.attr ≡ some attr
    → (get_attr path now later cache).1 ≡ some attr
unfolding get_attr
get_attr_hit path attr now later cache e hit h = ground arith

-- Attributes that were stored are served until their time to live is over.
pub get_attr-put_attr :
    (path : Bytes) (attr : FileAttr) (now at later : ℕ) (cache : MetadataCache)
    → 0 < cache.capacity
    → cache.sequence + 1 < 2 ^ 64
    → IsValid cache
    → at ≤ now + cache.ttl
    → (get_attr path at later (put_attr path (some attr) now cache)).1 ≡ some attr
unfolding put_attr
get_attr-put_attr path attr now at later cache room small v live =
    let cleared = record cache { entries = delete (missing_key path) cache.entries } in
    let entry = record (entry_at path) { attr = some attr } in
    let found =
      lookup-put (attr_key path) entry now cleared (λ e. ground arith) room small
        (delete_missing-IsValid (missing_key path) cache v) in
    let answer =
      get_locked-answer (attr_key path) at (put (attr_key path) entry now cleared)
        (stored entry now cleared) found live in
    get_attr_hit path attr at later _ _ answer refl

-- An entry stands under one of the four keys of its path.
abbrev pub IsFiled : Bytes × MetadataEntry → Type 0
IsFiled (key, entry) =
    (key ≡ attr_key entry.path)
    ⊎ (key ≡ dir_key entry.path)
    ⊎ (key ≡ link_key entry.path)
    ⊎ (key ≡ missing_key entry.path)

-- The prefixes tell the keys apart, so a found entry has the path that was asked for.
pub filed_attr : (path : Bytes) (e : MetadataEntry) → IsFiled (attr_key path, e) → e.path ≡ path
filed_attr path e h = ground arith

pub filed_dir : (path : Bytes) (e : MetadataEntry) → IsFiled (dir_key path, e) → e.path ≡ path
filed_dir path e h = ground arith

pub filed_link : (path : Bytes) (e : MetadataEntry) → IsFiled (link_key path, e) → e.path ≡ path
filed_link path e h = ground arith

pub filed_missing :
    (path : Bytes) (e : MetadataEntry) → IsFiled (missing_key path, e) → e.path ≡ path
filed_missing path e h = ground arith
