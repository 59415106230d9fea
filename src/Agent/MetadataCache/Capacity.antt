-- ===== src/Agent/MetadataCache/Capacity.antt =====
-- The size of the metadata cache (pkg/agent/filesystem/cache.go).
use colnk.Common.{
  bytes_beq, Bool-cases, ℕ, zero, suc, ◌≤◌, ◌<◌, ◌≡◌, refl, ◌⊎◌, inl, inr, Bytes, bytes_eq,
  bytes_beq_iff, is_empty, [], ◌∷◌, some, length, ltb, lookup, Map, length-delete-lt, arith, ◌||◌,
}
use colnk.Agent.MetadataCache.{
  MetadataEntry, MetadataCache, oldest, evict_oldest_locked, evict_while, put,
}

-- A key of a map, with the entry that a lookup finds.
abbrev Holds : Bytes → Map Bytes MetadataEntry → Type 0
Holds k m = (e : MetadataEntry) × (lookup k m ≡ some e)

Holds-cons :
    (q k : Bytes) (entry : MetadataEntry) (m : Map Bytes MetadataEntry)
    → (q ≡ k) ⊎ Holds q m
    → Holds q ((k, entry) ∷ m)
unfolding lookup
Holds-cons q k entry m (inl e) = (entry, ground (arith, bytes_beq_iff k q))
Holds-cons q k entry m (inr (e, h)) = elim (Bool-cases (bytes_beq k q)) [
  | inl same ↦ (entry, rw same)
  | inr other ↦ (e, rw other h)
]

-- The key that the loop settles on is the one that it started from, or a key of the map.
oldest_key :
    (key : Bytes) (seq : ℕ) (m : Map Bytes MetadataEntry)
    → (oldest key seq m ≡ key) ⊎ Holds (oldest key seq m) m
unfolding oldest
oldest_key key seq [] = inl refl
oldest_key key seq ((k, entry) ∷ rest) =
    elim (Bool-cases (is_empty key || ltb entry.sequence seq)) [
      | inl older ↦ rw older (inr (Holds-cons _ k entry rest (oldest_key k entry.sequence rest)))
      | inr newer ↦ rw newer (elim (oldest_key key seq rest) [
        | inl e ↦ inl e
        | inr h ↦ inr (Holds-cons _ k entry rest (inr h))
      ])
    ]

oldest-Holds : (m : Map Bytes MetadataEntry) → 0 < length m → Holds (oldest [] 0 m) m
unfolding oldest
oldest-Holds [] h = absurd (omega arith)
oldest-Holds ((k, entry) ∷ rest) h = Holds-cons _ k entry rest (oldest_key k entry.sequence rest)

-- Each eviction removes an entry.
length-evict :
    (cache : MetadataCache)
    → 0 < length cache.entries
    → length (evict_oldest_locked cache).entries < length cache.entries
unfolding evict_oldest_locked
length-evict cache h =
    let (e, found) = oldest-Holds cache.entries h in length-delete-lt _ e cache.entries found

capacity-evict : (cache : MetadataCache) → (evict_oldest_locked cache).capacity ≡ cache.capacity
unfolding evict_oldest_locked
capacity-evict cache = refl

capacity-evict_while :
    (fuel : ℕ) (cache : MetadataCache) → (evict_while fuel cache).capacity ≡ cache.capacity
unfolding evict_while evict_oldest_locked
capacity-evict_while zero cache = refl
capacity-evict_while (suc fuel) cache =
    ground (arith, capacity-evict_while fuel (evict_oldest_locked cache))

length-evict_while :
    (fuel : ℕ) (cache : MetadataCache)
    → length cache.entries ≤ fuel
    → length (evict_while fuel cache).entries ≤ cache.capacity
unfolding evict_while
length-evict_while zero cache h = omega arith
length-evict_while (suc fuel) cache h = ground (
  arith,
  length-evict cache,
  length-evict_while fuel (evict_oldest_locked cache),
  capacity-evict cache,
)

-- Storing an entry leaves at most `capacity` entries: the fuel of the loop is enough.
pub length-put-le :
    (key : Bytes) (entry : MetadataEntry) (now : ℕ) (cache : MetadataCache)
    → length (put key entry now cache).entries ≤ cache.capacity
unfolding put
length-put-le key entry now cache = length-evict_while _ _ (omega arith)
