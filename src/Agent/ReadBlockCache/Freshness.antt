-- ===== src/Agent/ReadBlockCache/Freshness.antt =====
-- Loads and invalidations of the block cache (pkg/agent/filesystem/cache.go) between each other.
use colnk.Common.{
  ℕ, zero, suc, ◌+◌, ◌^◌, ◌≤◌, ◌<◌, ◌≡◌, refl, ap, ◌==◌, inl, inr, Bytes, bytes_beq, bytes_beq_iff,
  bytes_eq, List, [], ◌∷◌, none, some, true, false, ◌&&◌, ◌||◌, not, if◌then◌else◌, Map, lookup,
  delete, delete_if, lookup-insert, lookup-delete_if, Distinct, Result, ok, err, any, arith,
  Bool-cases,
}
use colnk.Agent.MetadataCache.Operations.{at_or_below}
use colnk.Agent.ReadBlockCache.{
  ReadBlockKey, ReadBlockCache, key_eq, key_beq_iff, next_count, generation_of, load_begin, join,
  load_end, store_block, evict_while, evict_oldest_locked, flight_paths, bump, bump_others,
  invalidate,
}

generation_of-bump :
    (p q : Bytes) (m : Map Bytes ℕ)
    → generation_of q (bump p m)
      ≡ (if bytes_beq p q then next_count (generation_of q m) else generation_of q m)
unfolding bump
generation_of-bump p q m =
    ground (arith, lookup-insert p q (next_count (generation_of p m)) m, bytes_beq_iff p q)

-- No path stands twice.
abbrev Once : List Bytes → Type 0
Once [] = Unit {0}
Once (x ∷ xs) = (any (bytes_beq x) xs ≡ false) × Once xs

beq_sym : (a b : Bytes) → bytes_beq a b ≡ bytes_beq b a
beq_sym a b = ground (arith, bytes_beq_iff a b, bytes_beq_iff b a)

generation_of-bump_others :
    (path q : Bytes) (l : List Bytes) (m : Map Bytes ℕ)
    → Once l
    → generation_of q (bump_others path l m) ≡ (
        if any (bytes_beq q) l && not (bytes_beq q path)
        then next_count (generation_of q m)
        else generation_of q m)
unfolding bump_others any
generation_of-bump_others path q [] m once = refl
generation_of-bump_others path q (other ∷ rest) m once = ground (
  arith,
  generation_of-bump_others path q rest m once.1,
  generation_of-bump_others path q rest (bump other m) once.1,
  generation_of-bump other q m,
  bytes_beq_iff other path,
  bytes_beq_iff q other,
  bytes_beq_iff other q,
  bytes_beq_iff q path,
)

flight_paths-Once :
    (path : Bytes) (seen : List Bytes) (flights : Map ReadBlockKey (Unit {0}))
    → Once seen
    → Once (flight_paths path seen flights)
unfolding flight_paths
flight_paths-Once path seen [] once = once
flight_paths-Once path seen ((key, _) ∷ flights) once =
    elim (Bool-cases (at_or_below path key.path && not (any (bytes_beq key.path) seen))) [
      | inl new ↦ rw new (flight_paths-Once path (key.path ∷ seen) flights (ground arith, once))
      | inr old ↦ rw old (flight_paths-Once path seen flights once)
    ]

flight_paths-seen :
    (path q : Bytes) (seen : List Bytes) (flights : Map ReadBlockKey (Unit {0}))
    → any (bytes_beq q) seen ≡ true
    → any (bytes_beq q) (flight_paths path seen flights) ≡ true
unfolding flight_paths any
flight_paths-seen path q seen [] h = h
flight_paths-seen path q seen ((key, _) ∷ flights) h =
    elim (Bool-cases (at_or_below path key.path && not (any (bytes_beq key.path) seen))) [
      | inl new ↦ rw new (flight_paths-seen path q (key.path ∷ seen) flights (ground (arith, h)))
      | inr old ↦ rw old (flight_paths-seen path q seen flights h)
    ]

-- The path of a flight at or below the invalidated path is collected.
flight_paths-flight :
    (path : Bytes) (key : ReadBlockKey) (seen : List Bytes) (flights : Map ReadBlockKey (Unit {0}))
    → lookup key flights ≡ some tt
    → at_or_below path key.path ≡ true
    → any (bytes_beq key.path) (flight_paths path seen flights) ≡ true
unfolding flight_paths lookup
flight_paths-flight path key seen [] h below = cc
flight_paths-flight path key seen ((k, u) ∷ flights) h below = elim (Bool-cases (k == key)) [
  | inr other ↦
      let later : lookup key flights ≡ some tt = ground arith in
      flight_paths-flight path key
        (if at_or_below path k.path && not (any (bytes_beq k.path) seen)
          then k.path ∷ seen
          else seen)
        flights later below
  | inl same ↦
      let path_same : k.path ≡ key.path =
        ap (λ (r : ReadBlockKey). r.path) ((key_beq_iff k key).0 same) in
      elim (Bool-cases (any (bytes_beq key.path) seen)) [
        | inl there ↦
            rw (path_same, there, below) (flight_paths-seen path key.path seen flights there)
        | inr new ↦
            rw (path_same, new, below)
              (flight_paths-seen path key.path (key.path ∷ seen) flights
                (unfold any in ground (arith, bytes_beq_iff key.path key.path)))
      ]
]

-- An invalidation raises the generation of its path and of the flights below, and of no other path.
generation_of-invalidate :
    (p q : Bytes) (cache : ReadBlockCache)
    → generation_of q (invalidate p cache).generations ≡ (
        if bytes_beq q p || any (bytes_beq q) (flight_paths p [] cache.flights)
        then next_count (generation_of q cache.generations)
        else generation_of q cache.generations)
unfolding invalidate
generation_of-invalidate p q cache = ground (
  arith,
  generation_of-bump_others p q (flight_paths p [] cache.flights) (bump p cache.generations)
      (flight_paths-Once p [] cache.flights tt),
  generation_of-bump p q cache.generations,
  beq_sym p q,
)

-- The counters are far from wrapping around.
abbrev pub NoWrap : ReadBlockCache → Type 0
NoWrap cache = (q : Bytes) → generation_of q cache.generations + 1 < 2 ^ 64

-- What the other callers do between the two halves of a load.
pub data Step : ReadBlockCache → ReadBlockCache → Type 0 where
  begins : (key : ReadBlockKey) (now : ℕ) (c : ReadBlockCache) → Step c (load_begin key now c).0
  ends :
      (key : ReadBlockKey) (generation : ℕ) (r : Result Bytes) (now : ℕ) (c : ReadBlockCache)
      → Step c (load_end key generation r now c)
  invalidates : (path : Bytes) (c : ReadBlockCache) → NoWrap c → Step c (invalidate path c)

pub data Steps (c : ReadBlockCache) : ReadBlockCache → Type 0 where
  here : Steps c c
  next : {d e : ReadBlockCache} → Steps c d → Step d e → Steps c e

generations-evict_while :
    (fuel : ℕ) (cache : ReadBlockCache) → (evict_while fuel cache).generations ≡ cache.generations
unfolding evict_while evict_oldest_locked
generations-evict_while zero cache = refl
generations-evict_while (suc fuel) cache =
    ground (arith, generations-evict_while fuel (evict_oldest_locked cache))

generations-store_block :
    (key : ReadBlockKey) (content : Bytes) (now : ℕ) (cache : ReadBlockCache)
    → (store_block key content now cache).generations ≡ cache.generations
unfolding store_block
generations-store_block key content now cache = generations-evict_while _ _

generations-load_begin :
    (key : ReadBlockKey) (now : ℕ) (cache : ReadBlockCache)
    → (load_begin key now cache).0.generations ≡ cache.generations
unfolding load_begin
generations-load_begin key now cache = ground arith

generations-load_end :
    (key : ReadBlockKey) (generation : ℕ) (r : Result Bytes) (now : ℕ) (cache : ReadBlockCache)
    → (load_end key generation r now cache).generations ≡ cache.generations
unfolding load_end
generations-load_end key generation (err e) now cache = refl
generations-load_end key generation (ok content) now cache = ground (
  arith,
  generations-store_block key content now (record cache { flights = delete key cache.flights }),
)

-- Generations only grow.
Step-generation :
    {c d : ReadBlockCache} (q : Bytes)
    → Step c d
    → generation_of q c.generations ≤ generation_of q d.generations
Step-generation q (begins key now c) = rw (generations-load_begin key now c) (omega arith)
Step-generation q (ends key generation r now c) =
    rw (generations-load_end key generation r now c) (omega arith)
Step-generation q (invalidates path c small) =
    ground (arith, generation_of-invalidate path q c, small q)

Steps-generation :
    {c d : ReadBlockCache} (q : Bytes)
    → Steps c d
    → generation_of q c.generations ≤ generation_of q d.generations
Steps-generation q here = omega arith
Steps-generation q (next steps step) =
    omega (arith, Steps-generation q steps, Step-generation q step)

-- A load leads a flight from a state. Whatever the others do, an invalidation of its path or of an
-- ancestor while the flight lasts keeps the block out of the cache: when the load ends, at any later
-- time, the entries are left as they are.
pub load_end-stale :
    (key : ReadBlockKey) (p : Bytes) (start middle final : ReadBlockCache) (r : Result Bytes)
    (now : ℕ)
    → Steps start middle
    → lookup key middle.flights ≡ some tt
    → at_or_below p key.path ≡ true
    → NoWrap middle
    → Steps (invalidate p middle) final
    → (load_end key (generation_of key.path start.generations) r now final).entries ≡ final.entries
unfolding load_end
load_end-stale key p start middle final (err e) now before flight below small after = refl
load_end-stale key p start middle final (ok content) now before flight below small after =
    let g = generation_of key.path start.generations in
    let raised : generation_of key.path middle.generations
        < generation_of key.path (invalidate p middle).generations =
      ground (
        arith,
        generation_of-invalidate p key.path middle,
        flight_paths-flight p key [] middle.flights flight below,
        small key.path,
      ) in
    let later : g < generation_of key.path final.generations =
      omega (arith, raised, Steps-generation key.path before, Steps-generation key.path after) in
    ground (arith, later)

-- A load that begins after the invalidation, while such a flight is still in the air, joins it: it is
-- given the block that was loaded before the invalidation.
pub load_begin-joins-stale :
    (key : ReadBlockKey) (p : Bytes) (cache : ReadBlockCache) (now : ℕ)
    → Distinct cache.entries
    → lookup key cache.flights ≡ some tt
    → at_or_below p key.path ≡ true
    → (load_begin key now (invalidate p cache)).1 ≡ join
unfolding load_begin invalidate
load_begin-joins-stale key p cache now d flight below =
    let gone : lookup key (delete_if (λ k _. at_or_below p k.path) cache.entries) ≡ none =
      ground (arith, lookup-delete_if (λ k _. at_or_below p k.path) key cache.entries d, below) in
    ground (arith, gone)
