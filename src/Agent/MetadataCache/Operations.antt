-- ===== src/Agent/MetadataCache/Operations.antt =====
-- The operations of the metadata cache (pkg/agent/filesystem/cache.go).
use Prim.Native.Nat.{bit_and}
use colnk.Common.{
  ℕ, ◌^◌, Bytes, bytes_beq, bytes_eq, is_empty, List, [], ◌∷◌, Option, none, some, Bool, true,
  false, ◌&&◌, ◌||◌, not, nat_beq, if◌then◌else◌, Map, lookup, insert, delete, delete_if,
}
use colnk.Protocol.Types.{FileAttr, DirEntry}
use colnk.Agent.MetadataCache.{
  MetadataEntry, MetadataCache, entry_at, attr_key, dir_key, link_key, missing_key, parent_and_name,
  path_prefix, get_locked, put,
}

-- os.ModeSymlink
abbrev pub mode_symlink : ℕ
mode_symlink = 2 ^ 27

-- A field of an entry that may be missing.
abbrev pub field {ℓ} : {A : Type ℓ} → (MetadataEntry → Option A) → Option MetadataEntry → Option A
field f none = none
field f (some entry) = f entry

-- `map[name]` on a map that may be nil.
abbrev pub index : {V : Type 0} → Bytes → Option (Map Bytes V) → Option V
index name none = none
index name (some m) = lookup name m

-- What the cached listing of the parent says of a path.
unfoldable pub from_parent :
    {V : Type 0}
    → (MetadataEntry → Option (Map Bytes V))
    → Bytes
    → ℕ
    → MetadataCache
    → MetadataCache × Option V
from_parent f path now cache =
    let (parent, name) = parent_and_name path in
    let (cache', entry) = get_locked (dir_key parent) now cache in
    (cache', index name (field f entry))

unfoldable pub get_attr : Bytes → ℕ → ℕ → MetadataCache → MetadataCache × Option FileAttr
get_attr path now later cache =
    let (cache', entry) = get_locked (attr_key path) now cache in
    elim (field (λ e. e.attr) entry) [
      | some attr ↦ (cache', some attr)
      | none ↦ from_parent (λ e. e.dir_attrs) path later cache'
    ]

unfoldable pub put_attr : Bytes → Option FileAttr → ℕ → MetadataCache → MetadataCache
put_attr path none now cache = cache
put_attr path (some attr) now cache =
    put (attr_key path) (record (entry_at path) { attr = some attr }) now
      (record cache { entries = delete (missing_key path) cache.entries })

abbrev pub is_marked_missing : Option MetadataEntry → Bool
is_marked_missing none = false
is_marked_missing (some entry) = entry.missing

-- `_, exists := entry.dirAttrs[name]; return !exists`, and false without a listing.
abbrev pub lacks : Bytes → Option (Map Bytes FileAttr) → Bool
lacks name none = false
lacks name (some m) = elim (lookup name m) [ none ↦ true | some _ ↦ false ]

unfoldable pub is_missing : Bytes → ℕ → ℕ → MetadataCache → MetadataCache × Bool
is_missing path now later cache =
    let (cache', entry) = get_locked (missing_key path) now cache in
    let (parent, name) = parent_and_name path in
    let (cache'', listing) = get_locked (dir_key parent) later cache' in
    if is_marked_missing entry
    then (cache', true)
    else if is_empty path
    then (cache', false)
    else (cache'', lacks name (field (λ e. e.dir_attrs) listing))

unfoldable pub put_missing : Bytes → ℕ → MetadataCache → MetadataCache
put_missing path = put (missing_key path) (record (entry_at path) { missing = true })

unfoldable pub get_link : Bytes → ℕ → ℕ → MetadataCache → MetadataCache × Option Bytes
get_link path now later cache =
    let (cache', entry) = get_locked (link_key path) now cache in
    elim (field (λ e. e.link) entry) [
      | some target ↦ (cache', some target)
      | none ↦ from_parent (λ e. e.dir_links) path later cache'
    ]

unfoldable pub put_link : Bytes → Bytes → ℕ → MetadataCache → MetadataCache
put_link path target = put (link_key path) (record (entry_at path) { link = some target })

-- `append([]protocol.DirEntry(nil), entries...)` of no entries is nil, so an empty listing is no hit.
abbrev pub dir_of : Option MetadataEntry → Option (List DirEntry)
dir_of none = none
dir_of (some entry) = elim entry.dir [ [] ↦ none | e ∷ es ↦ some (e ∷ es) ]

unfoldable pub get_dir : Bytes → ℕ → MetadataCache → MetadataCache × Option (List DirEntry)
get_dir path now cache =
    let (cache', entry) = get_locked (dir_key path) now cache in (cache', dir_of entry)

-- The two maps that `putDir` fills in its loop.
unfoldable pub index_attrs : Map Bytes FileAttr → List DirEntry → Map Bytes FileAttr
index_attrs m [] = m
index_attrs m (entry ∷ rest) = index_attrs (insert entry.name entry.attr m) rest

unfoldable pub index_links : Map Bytes Bytes → List DirEntry → Map Bytes Bytes
index_links m [] = m
index_links m (entry ∷ rest) =
    index_links
      (if not (nat_beq (bit_and entry.attr.mode mode_symlink) 0) && not (is_empty entry.link_target)
        then insert entry.name entry.link_target m
        else m)
      rest

unfoldable pub put_dir : Bytes → List DirEntry → ℕ → MetadataCache → MetadataCache
unfolding index_attrs index_links
put_dir path entries = put (dir_key path) (record (entry_at path) {
  dir = entries;
  dir_attrs = some (index_attrs [] entries);
  dir_links = some (index_links [] entries);
})

-- The path itself and what lies below it.
abbrev pub at_or_below : Bytes → Bytes → Bool
at_or_below path candidate = bytes_beq candidate path || path_prefix candidate path

unfoldable pub invalidate : Bytes → MetadataCache → MetadataCache
invalidate path cache = record cache {
  entries = delete_if (λ _ entry. at_or_below path entry.path) cache.entries;
}

unfoldable pub invalidate_exact : Bytes → MetadataCache → MetadataCache
invalidate_exact path cache = record cache {
  entries = delete_if (λ _ entry. bytes_beq entry.path path) cache.entries;
}
