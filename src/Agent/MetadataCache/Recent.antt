-- ===== src/Agent/MetadataCache/Recent.antt =====
-- The order in which the metadata cache (pkg/agent/filesystem/cache.go) evicts its entries.
use colnk.Common.{
  ℕ, zero, suc, ◌+◌, ◌≤◌, ◌<◌, ◌^◌, ◌≡◌, ◌≢◌, refl, ◌⊎◌, inl, inr, Bytes, bytes_eq, bytes_beq,
  bytes_beq_iff, is_empty, [], ◌∷◌, none, some, length, ltb, lookup, insert, Map, Distinct, All,
  All-insert, All-delete, insert-Distinct, delete-Distinct, lookup-insert, lookup-delete, arith,
  Bool-cases, Option-cases, false, true,
}
use colnk.Agent.MetadataCache.{
  MetadataEntry, MetadataCache, oldest, evict_oldest_locked, evict_while, put, get_locked,
  next_sequence,
}

-- Keys are not empty and stand once; the sequence numbers do not exceed the counter.
abbrev pub IsNumbered : ℕ → Bytes × MetadataEntry → Type 0
IsNumbered n (key, entry) = (key ≢ []) × (entry.sequence ≤ n)

pub record IsValid (cache : MetadataCache) : Type 0 where
  pub distinct : Distinct cache.entries
  pub numbered : All (IsNumbered cache.sequence) cache.entries

-- An entry is the one under `k`, numbered `s`, or an older one.
abbrev IsOlder : Bytes → ℕ → Bytes × MetadataEntry → Type 0
IsOlder k s (q, entry) =
    ((q ≡ k) × (entry.sequence ≡ s)) ⊎ ((q ≢ k) × (q ≢ []) × (entry.sequence < s))

lookup-none-of-head :
    (k q : Bytes) (entry : MetadataEntry) (rest : Map Bytes MetadataEntry)
    → lookup k ((q, entry) ∷ rest) ≡ none
    → q ≢ k
unfolding lookup
lookup-none-of-head k q entry rest h = λ e. ground (arith, bytes_beq_iff q k)

is_empty-ne : (key : Bytes) → key ≢ [] → is_empty key ≡ false
is_empty-ne [] h = absurd (h refl)
is_empty-ne (c ∷ key) h = refl

module _ (k : Bytes) (s : ℕ) (given : k ≢ []) where
  oldest-ne :
      (key : Bytes) (seq : ℕ) (m : Map Bytes MetadataEntry)
      → key ≢ k
      → key ≢ []
      → seq < s
      → All (IsOlder k s) m
      → oldest key seq m ≢ k
  unfolding oldest
  oldest-ne key seq [] a b c h = a
  oldest-ne key seq ((q, entry) ∷ rest) a b c (inl same, h) =
      ground (arith, is_empty-ne key b, oldest-ne key seq rest a b c h)
  oldest-ne key seq ((q, entry) ∷ rest) a b c (inr older, h) =
      elim (Bool-cases (ltb entry.sequence seq)) [
        | inl taken ↦
            rw (is_empty-ne key b, taken)
              (oldest-ne q entry.sequence rest older.0 older.1 older.2 h)
        | inr kept ↦ rw (is_empty-ne key b, kept) (oldest-ne key seq rest a b c h)
      ]

  -- Of two or more entries the eviction does not take the newest.
  oldest-ne-newest :
      (m : Map Bytes MetadataEntry)
      → 1 < length m
      → Distinct m
      → All (IsOlder k s) m
      → oldest [] 0 m ≢ k
  unfolding oldest
  oldest-ne-newest [] l d h = absurd (omega arith)
  oldest-ne-newest ((q, entry) ∷ []) l d h = absurd (omega arith)
  oldest-ne-newest ((q, entry) ∷ rest) l d (inr older, h) =
      oldest-ne q entry.sequence rest older.0 older.1 older.2 h
  oldest-ne-newest ((q, entry) ∷ (p, second) ∷ rest) l d (inl same, (inl same', h)) =
      absurd (lookup-none-of-head k p second rest (rw (← same.0) d.0) same'.0)
  oldest-ne-newest ((q, entry) ∷ (p, second) ∷ rest) l d (inl same, (inr older, h)) =
      let q_given : q ≢ [] = λ e. given (cc) in
      let first : ltb second.sequence entry.sequence ≡ true = ground arith in
      rw (is_empty-ne q q_given, first) (oldest-ne p second.sequence rest older.0 older.1 older.2 h)

  -- The newest entry survives the evictions, if there is room for one.
  lookup-evict_while :
      (fuel : ℕ) (e : MetadataEntry) (cache : MetadataCache)
      → 0 < cache.capacity
      → Distinct cache.entries
      → All (IsOlder k s) cache.entries
      → lookup k cache.entries ≡ some e
      → lookup k (evict_while fuel cache).entries ≡ some e
  unfolding evict_while
  lookup-evict_while zero e cache room d h found = found
  lookup-evict_while (suc fuel) e cache room d h found =
      elim (Bool-cases (ltb cache.capacity (length cache.entries))) [
        | inr fits ↦ rw fits found
        | inl over ↦
            let many : 1 < length cache.entries = ground arith in
            let gone = oldest [] 0 cache.entries in
            rw over (
              lookup-evict_while fuel e (evict_oldest_locked cache)
                (unfold evict_oldest_locked in room)
                (unfold evict_oldest_locked in delete-Distinct gone cache.entries d)
                (unfold evict_oldest_locked in All-delete (IsOlder k s) gone cache.entries h)
                (unfold evict_oldest_locked in
                  ground (
                    arith,
                    lookup-delete gone k cache.entries,
                    bytes_beq_iff gone k,
                    oldest-ne-newest cache.entries many d h,
                  )))
      ]

-- A map in which a key is not found has no entry under it.
not-found-ne :
    (k : Bytes) (m : Map Bytes MetadataEntry) → lookup k m ≡ none → All (λ kv. kv.0 ≢ k) m
unfolding lookup
not-found-ne k [] h = tt
not-found-ne k ((q, entry) ∷ m) h =
    (lookup-none-of-head k q entry m h, not-found-ne k m (ground arith))

-- Entries numbered up to `n` are older than one that is stored with the number `n + 1`.
IsOlder-insert :
    (k : Bytes) (n : ℕ) (e : MetadataEntry) (m : Map Bytes MetadataEntry)
    → e.sequence ≡ n + 1
    → Distinct m
    → All (IsNumbered n) m
    → All (IsOlder k (n + 1)) (insert k e m)
unfolding insert
IsOlder-insert k n e [] new d h = (inl (refl, new), tt)
IsOlder-insert k n e ((q, entry) ∷ m) new d h = elim (Bool-cases (bytes_beq q k)) [
  | inl same ↦
      let qk : q ≡ k = (bytes_beq_iff q k).0 same in
      rw same (inl (refl, new), others m (not-found-ne k m (rw (← qk) d.0)) h.1)
  | inr other ↦
      let qk : q ≢ k = λ p. ground (arith, bytes_beq_iff q k) in
      rw other (inr (qk, h.0.0, omega arith), IsOlder-insert k n e m new d.1 h.1)
]
  where
    others :
        (l : Map Bytes MetadataEntry)
        → All (λ kv. kv.0 ≢ k) l
        → All (IsNumbered n) l
        → All (IsOlder k (n + 1)) l
    others [] a b = tt
    others ((q', entry') ∷ l) a b = (inr (a.0, b.0.0, omega arith), others l a.1 b.1)

IsNumbered-mono :
    (n n' : ℕ) (m : Map Bytes MetadataEntry) → n ≤ n' → All (IsNumbered n) m → All (IsNumbered n') m
IsNumbered-mono n n' [] le h = tt
IsNumbered-mono n n' ((q, entry) ∷ m) le h = ((h.0.0, omega arith), IsNumbered-mono n n' m le h.1)

evict_oldest_locked-IsValid :
    (cache : MetadataCache) → IsValid cache → IsValid (evict_oldest_locked cache)
unfolding evict_oldest_locked
evict_oldest_locked-IsValid cache v = record {
  distinct = delete-Distinct (oldest [] 0 cache.entries) cache.entries v.distinct;
  numbered =
      All-delete (IsNumbered cache.sequence) (oldest [] 0 cache.entries) cache.entries v.numbered;
}

evict_while-IsValid :
    (fuel : ℕ) (cache : MetadataCache) → IsValid cache → IsValid (evict_while fuel cache)
unfolding evict_while
evict_while-IsValid zero cache v = v
evict_while-IsValid (suc fuel) cache v =
    elim (Bool-cases (ltb cache.capacity (length cache.entries))) [
      | inl over ↦ rw over (
          evict_while-IsValid fuel (evict_oldest_locked cache)
            (evict_oldest_locked-IsValid cache v))
      | inr fits ↦ rw fits v
    ]

insert-IsValid :
    (key : Bytes) (entry : MetadataEntry) (n : ℕ) (cache : MetadataCache)
    → key ≢ []
    → cache.sequence ≤ n
    → entry.sequence ≤ n
    → IsValid cache
    → IsValid (record cache { entries = insert key entry cache.entries; sequence = n })
insert-IsValid key entry n cache given le new v = record {
  distinct = insert-Distinct key entry cache.entries v.distinct;
  numbered =
      All-insert (IsNumbered n) key entry cache.entries (given, new)
        (IsNumbered-mono cache.sequence n cache.entries le v.numbered);
}

-- Storing an entry keeps the cache well formed, as long as the counter does not wrap.
pub put-IsValid :
    (key : Bytes) (entry : MetadataEntry) (now : ℕ) (cache : MetadataCache)
    → key ≢ []
    → cache.sequence + 1 < 2 ^ 64
    → IsValid cache
    → IsValid (put key entry now cache)
unfolding put
put-IsValid key entry now cache given small v =
    let e : next_sequence cache.sequence ≡ cache.sequence + 1 = omega arith in
    evict_while-IsValid _ _ (
      insert-IsValid key _ (next_sequence cache.sequence) cache given (omega arith) (omega arith) v)

-- So does a lookup, which may delete an expired entry or renumber the one that it finds.
pub get_locked-IsValid :
    (key : Bytes) (now : ℕ) (cache : MetadataCache)
    → key ≢ []
    → cache.sequence + 1 < 2 ^ 64
    → IsValid cache
    → IsValid (get_locked key now cache).0
unfolding get_locked
get_locked-IsValid key now cache given small v = elim (Option-cases (lookup key cache.entries)) [
  | inl miss ↦ rw (miss, get_locked) v
  | inr (entry, hit) ↦ elim (Bool-cases (ltb entry.expires now)) [
    | inl old ↦
        rw (hit, get_locked)
          (rw old (record {
            distinct = delete-Distinct key cache.entries v.distinct;
            numbered = All-delete (IsNumbered cache.sequence) key cache.entries v.numbered;
          }))
    | inr live ↦
        let e : next_sequence cache.sequence ≡ cache.sequence + 1 = omega arith in
        rw (hit, get_locked)
          (rw live (
            insert-IsValid key _ (next_sequence cache.sequence) cache given (omega arith)
              (omega arith) v))
  ]
]

-- What `put` stores under its key.
abbrev pub stored : MetadataEntry → ℕ → MetadataCache → MetadataEntry
stored entry now cache = record entry {
  sequence = next_sequence cache.sequence;
  expires = now + cache.ttl;
}

-- An entry that was just stored is in the cache: eviction takes older ones.
pub lookup-put :
    (key : Bytes) (entry : MetadataEntry) (now : ℕ) (cache : MetadataCache)
    → key ≢ []
    → 0 < cache.capacity
    → cache.sequence + 1 < 2 ^ 64
    → IsValid cache
    → lookup key (put key entry now cache).entries ≡ some (stored entry now cache)
unfolding put
lookup-put key entry now cache given room small v =
    let e : next_sequence cache.sequence ≡ cache.sequence + 1 = omega arith in
    lookup-evict_while key (cache.sequence + 1) given _ (stored entry now cache) _ room
      (insert-Distinct key _ cache.entries v.distinct)
      (IsOlder-insert key cache.sequence _ cache.entries e v.distinct v.numbered)
      (ground (
        arith,
        lookup-insert key key (stored entry now cache) cache.entries,
        bytes_beq_iff key key,
      ))
