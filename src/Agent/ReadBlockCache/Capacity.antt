-- ===== src/Agent/ReadBlockCache/Capacity.antt =====
-- The size of the block cache (pkg/agent/filesystem/cache.go).
use colnk.Common.{
  ℕ, zero, suc, ◌≤◌, ◌<◌, ◌≡◌, refl, ◌⊎◌, inl, inr, Bytes, [], ◌∷◌, Option, none, some, length, ltb,
  lookup, delete, Map, ◌==◌, length-delete-lt, Result, ok, err, arith, Bool-cases,
}
use colnk.Agent.ReadBlockCache.{
  ReadBlockKey, ReadBlockEntry, ReadBlockCache, key_eq, key_beq_iff, oldest, evict_oldest_locked,
  evict_while, store_block, load_end,
}

-- What the loop over the entries settles on, if it started from `found`.
abbrev Finds : Option (ReadBlockKey × ℕ) → Map ReadBlockKey ReadBlockEntry → Type 0
Finds found m =
    (k : ReadBlockKey) × (n : ℕ) × (oldest found m ≡ some (k, n))
    × ((found ≡ some (k, n)) ⊎ ((e : ReadBlockEntry) × (lookup k m ≡ some e)))

lookup-head :
    (key k : ReadBlockKey) (entry e : ReadBlockEntry) (rest : Map ReadBlockKey ReadBlockEntry)
    → lookup k rest ≡ some e
    → (e' : ReadBlockEntry) × (lookup k ((key, entry) ∷ rest) ≡ some e')
unfolding lookup
lookup-head key k entry e rest h = elim (Bool-cases (key == k)) [
  | inl same ↦ (entry, rw same)
  | inr other ↦ (e, rw other h)
]

lookup-first :
    (key : ReadBlockKey) (entry : ReadBlockEntry) (rest : Map ReadBlockKey ReadBlockEntry)
    → lookup key ((key, entry) ∷ rest) ≡ some entry
unfolding lookup
lookup-first key entry rest = ground (arith, key_beq_iff key key)

Finds-some :
    (k : ReadBlockKey) (n : ℕ) (m : Map ReadBlockKey ReadBlockEntry) → Finds (some (k, n)) m
unfolding oldest
Finds-some k n [] = (k, n, refl, inl refl)
Finds-some k n ((key, entry) ∷ rest) = elim (Bool-cases (ltb entry.sequence n)) [
  | inl older_one ↦
      let (q, i, found, from) = Finds-some key entry.sequence rest in
      (
        q,
        i,
        rw older_one found,
        inr (elim from [
          | inl e ↦
              let qk : key ≡ q = ground arith in (entry, rw (← qk) (lookup-first key entry rest))
          | inr (e, h) ↦ lookup-head key q entry e rest h
        ]),
      )
  | inr newer_one ↦
      let (q, i, found, from) = Finds-some k n rest in
      (
        q,
        i,
        rw newer_one found,
        elim from [ inl e ↦ inl e | inr (e, h) ↦ inr (lookup-head key q entry e rest h) ],
      )
]

oldest-holds :
    (m : Map ReadBlockKey ReadBlockEntry)
    → 0 < length m
    → (k : ReadBlockKey) × (n : ℕ) × (oldest none m ≡ some (k, n))
      × ((e : ReadBlockEntry) × (lookup k m ≡ some e))
unfolding oldest
oldest-holds [] h = absurd (omega arith)
oldest-holds ((key, entry) ∷ rest) h =
    let (q, i, found, from) = Finds-some key entry.sequence rest in
    (
      q,
      i,
      found,
      elim from [
        | inl e ↦
            let qk : key ≡ q = ground arith in (entry, rw (← qk) (lookup-first key entry rest))
        | inr (e, there) ↦ lookup-head key q entry e rest there
      ],
    )

-- Each eviction removes an entry.
length-evict :
    (cache : ReadBlockCache)
    → 0 < length cache.entries
    → length (evict_oldest_locked cache).entries < length cache.entries
unfolding evict_oldest_locked
length-evict cache h =
    let (k, n, found, (e, there)) = oldest-holds cache.entries h in
    ground (arith, length-delete-lt k e cache.entries there)

capacity-evict : (cache : ReadBlockCache) → (evict_oldest_locked cache).capacity ≡ cache.capacity
unfolding evict_oldest_locked
capacity-evict cache = ground arith

length-evict_while :
    (fuel : ℕ) (cache : ReadBlockCache)
    → length cache.entries ≤ fuel
    → length (evict_while fuel cache).entries ≤ cache.capacity
unfolding evict_while
length-evict_while zero cache h = omega arith
length-evict_while (suc fuel) cache h = ground (
  arith,
  length-evict cache,
  length-evict_while fuel (evict_oldest_locked cache),
  capacity-evict cache,
)

store_block-bound :
    (key : ReadBlockKey) (content : Bytes) (now : ℕ) (cache : ReadBlockCache)
    → length (store_block key content now cache).entries ≤ cache.capacity
unfolding store_block
store_block-bound key content now cache = length-evict_while _ _ (omega arith)

-- The end of a load leaves at most `capacity` blocks, if there were no more before; a failed load
-- stores nothing.
pub load_end-capacity :
    (key : ReadBlockKey) (generation : ℕ) (r : Result Bytes) (now : ℕ) (cache : ReadBlockCache)
    → length cache.entries ≤ cache.capacity
    → length (load_end key generation r now cache).entries ≤ cache.capacity
unfolding load_end
load_end-capacity key generation (err e) now cache h = h
load_end-capacity key generation (ok content) now cache h =
    ground (
      arith,
      store_block-bound key content now (record cache { flights = delete key cache.flights }),
    )
