-- ===== src/Agent/ReadBlockCache.antt =====
-- pkg/agent/filesystem/cache.go, readBlockCache. `load` releases the lock while the loader runs, so it
-- is two operations: `load_begin` up to the release, `load_end` from the loader's return on. A flight is
-- a load between the two; the callers that join it wait for its result. Offsets are not negative.
pub mod Capacity
pub mod Freshness
pub mod Held
use colnk.Common.{
  ℕ, zero, suc, ◌+◌, ◌%◌, ◌^◌, ◌≡◌, ◌↔◌, Bytes, bytes_beq, bytes_beq_iff, bytes_eq, nat_beq,
  nat_beq_iff, List, [], ◌∷◌, Option, none, some, Bool, true, false, ◌&&◌, ◌||◌, not, ltb,
  if◌then◌else◌, length, Eq, ◌==◌, Map, lookup, insert, delete, delete_if, Result, ok, err, any,
  arith,
}
use colnk.Agent.MetadataCache.Operations.{at_or_below}

pub record ReadBlockKey : Type 0 where
  pub path : Bytes
  pub offset : ℕ

abbrev key_beq : ReadBlockKey → ReadBlockKey → Bool
key_beq a b = bytes_beq a.path b.path && nat_beq a.offset b.offset

pub key_beq_iff : (a b : ReadBlockKey) → (key_beq a b ≡ true) ↔ (a ≡ b)
key_beq_iff a b = ground (arith, bytes_beq_iff a.path b.path, nat_beq_iff a.offset b.offset)

instance abbrev pub key_eq : Eq ReadBlockKey
key_eq = record { eqb = key_beq; eqb_iff = key_beq_iff }

pub record ReadBlockEntry : Type 0 where
  pub content : Bytes
  pub expires : ℕ
  pub sequence : ℕ

pub record ReadBlockCache : Type 0 where
  pub entries : Map ReadBlockKey ReadBlockEntry
  pub flights : Map ReadBlockKey (Unit {0})
  pub generations : Map Bytes ℕ
  pub capacity : ℕ
  pub ttl : ℕ
  pub sequence : ℕ

abbrev pub new_read_block_cache : ℕ → ℕ → ReadBlockCache
new_read_block_cache capacity ttl = record {
  entries = [];
  flights = [];
  generations = [];
  capacity = capacity;
  ttl = ttl;
  sequence = 0;
}

-- A uint64 counter.
abbrev pub next_count : ℕ → ℕ
next_count n = (n + 1) % 2 ^ 64

-- `cache.generations[path]`, 0 where the map has no entry.
unfoldable pub generation_of : Bytes → Map Bytes ℕ → ℕ
generation_of path generations = elim (lookup path generations) [ none ↦ 0 | some g ↦ g ]

-- What a caller of `load` does next: return the block, wait for a flight, or run the loader.
pub data Begin : Type 0 where
  hit : Bytes → Begin
  join : Begin
  lead : ℕ → Begin

-- The part of `load` behind the lookup in the entries.
unfoldable pub begin_flight : ReadBlockKey → ReadBlockCache → ReadBlockCache × Begin
begin_flight key cache = elim (lookup key cache.flights) [
  | some _ ↦ (cache, join)
  | none ↦ (
    record cache { flights = insert key tt cache.flights },
    lead (generation_of key.path cache.generations),
  )
]

unfoldable pub load_begin : ReadBlockKey → ℕ → ReadBlockCache → ReadBlockCache × Begin
unfolding begin_flight
load_begin key now cache = elim (lookup key cache.entries) [
  | none ↦ begin_flight key cache
  | some entry ↦
      if ltb now entry.expires
      then (let s = next_count cache.sequence in
          (
            record cache {
              entries = insert key (record entry { sequence = s }) cache.entries;
              sequence = s;
            },
            hit entry.content,
          ))
      else begin_flight key (record cache { entries = delete key cache.entries })
]

-- `if !found || entry.sequence < oldestSequence`
abbrev pub older : Option (ReadBlockKey × ℕ) → ReadBlockKey → ℕ → Option (ReadBlockKey × ℕ)
older none key seq = some (key, seq)
older (some (k, s)) key seq = if ltb seq s then some (key, seq) else some (k, s)

-- The loop of `evictOldestLocked`: the key and the number that were found so far.
unfoldable pub oldest :
    Option (ReadBlockKey × ℕ) → Map ReadBlockKey ReadBlockEntry → Option (ReadBlockKey × ℕ)
oldest found [] = found
oldest found ((key, entry) ∷ rest) = oldest (older found key entry.sequence) rest

unfoldable pub evict_oldest_locked : ReadBlockCache → ReadBlockCache
evict_oldest_locked cache = elim (oldest none cache.entries) [
  | none ↦ cache
  | some (key, _) ↦ record cache { entries = delete key cache.entries }
]

-- `for len(cache.entries) > cache.capacity`, with one round for each entry as fuel.
unfoldable pub evict_while : ℕ → ReadBlockCache → ReadBlockCache
evict_while zero cache = cache
evict_while (suc fuel) cache =
    let rest = evict_while fuel (evict_oldest_locked cache) in
    if ltb cache.capacity (length cache.entries) then rest else cache

-- The block is stored if no invalidation came between.
unfoldable pub store_block : ReadBlockKey → Bytes → ℕ → ReadBlockCache → ReadBlockCache
store_block key content now cache =
    let s = next_count cache.sequence in
    let entries =
      insert key (record { content = content; expires = now + cache.ttl; sequence = s })
        cache.entries in
    evict_while (length entries) (record cache { entries = entries; sequence = s })

unfoldable pub load_end : ReadBlockKey → ℕ → Result Bytes → ℕ → ReadBlockCache → ReadBlockCache
load_end key generation (err e) now cache = record cache { flights = delete key cache.flights }
load_end key generation (ok content) now cache =
    let landed = record cache { flights = delete key cache.flights } in
    if nat_beq (generation_of key.path cache.generations) generation
    then store_block key content now landed
    else landed

-- `invalidatedFlights`: the paths at or below `path` that have a flight, each once.
unfoldable pub flight_paths : Bytes → List Bytes → Map ReadBlockKey (Unit {0}) → List Bytes
flight_paths path seen [] = seen
flight_paths path seen ((key, _) ∷ flights) =
    flight_paths path
      (if at_or_below path key.path && not (any (bytes_beq key.path) seen)
        then key.path ∷ seen
        else seen)
      flights

unfoldable pub bump : Bytes → Map Bytes ℕ → Map Bytes ℕ
unfolding generation_of
bump path generations = insert path (next_count (generation_of path generations)) generations

unfoldable pub bump_others : Bytes → List Bytes → Map Bytes ℕ → Map Bytes ℕ
unfolding bump
bump_others path [] generations = generations
bump_others path (other ∷ rest) generations =
    bump_others path rest (if bytes_beq other path then generations else bump other generations)

unfoldable pub invalidate : Bytes → ReadBlockCache → ReadBlockCache
unfolding bump_others
invalidate path cache = record cache {
  generations = bump_others path (flight_paths path [] cache.flights) (bump path cache.generations);
  entries = delete_if (λ key _. at_or_below path key.path) cache.entries;
}
