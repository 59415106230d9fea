-- ===== src/Agent/ReadBlockCache/Held.antt =====
-- The blocks that the cache of blocks holds (pkg/agent/filesystem/cache.go, readBlockCache).
use mathlib.Core.Path.{subst}
use colnk.Common.{
  Map, nat_beq, ◌∙◌, ℕ, zero, suc, ◌≡◌, refl, Bytes, [], ◌∷◌, none, some, lookup, lookup-insert,
  lookup-delete, insert, delete, ok, arith, Option-cases, inl, inr, Bool-cases, length, ltb, ◌==◌,
  beq_refl,
}
use colnk.Agent.ReadBlockCache.{
  ReadBlockKey, ReadBlockEntry, ReadBlockCache, key_eq, key_beq_iff, Begin, hit, lead, begin_flight,
  load_begin, load_end, generation_of, store_block, join, evict_while, evict_oldest_locked, oldest,
}

module _ (P : ReadBlockKey → Bytes → Type 0) where
  -- Every block that is found has the property.
  abbrev pub Holds : ReadBlockCache → Type 0
  Holds cache =
      (key : ReadBlockKey) (entry : ReadBlockEntry)
      → lookup key cache.entries ≡ some entry
      → P key entry.content

  insert-P :
      (entries : Map ReadBlockKey ReadBlockEntry) (key : ReadBlockKey) (entry : ReadBlockEntry)
      → ((k : ReadBlockKey) (e : ReadBlockEntry) → lookup k entries ≡ some e → P k e.content)
      → P key entry.content
      → (k : ReadBlockKey) (e : ReadBlockEntry) → lookup k (insert key entry entries) ≡ some e
      → P k e.content
  insert-P entries key entry h p k e found = elim (Bool-cases (key == k)) [
    | inl same ↦
        let value : entry ≡ e = ground (arith, lookup-insert key k entry entries) in
        subst (λ j. P j e.content) ((key_beq_iff key k).0 same) (rw (← value) p)
    | inr other ↦ h k e (ground (arith, lookup-insert key k entry entries))
  ]

  evict_oldest_locked-Holds :
      (cache : ReadBlockCache) → Holds cache → Holds (evict_oldest_locked cache)
  unfolding evict_oldest_locked
  evict_oldest_locked-Holds cache h = elim (Option-cases (oldest none cache.entries)) [
    | inl e ↦ rw (e, evict_oldest_locked) h
    | inr ((old, _), e) ↦
        rw (e, evict_oldest_locked)
          λ key entry found. ground (arith, h key entry, lookup-delete old key cache.entries)
  ]

  evict_while-Holds :
      (fuel : ℕ) (cache : ReadBlockCache) → Holds cache → Holds (evict_while fuel cache)
  unfolding evict_while
  evict_while-Holds zero cache h = h
  evict_while-Holds (suc fuel) cache h =
      elim (Bool-cases (ltb cache.capacity (length cache.entries))) [
        | inl e ↦
            rw (e) (
              evict_while-Holds fuel (evict_oldest_locked cache)
                (evict_oldest_locked-Holds cache h))
        | inr e ↦ rw (e) h
      ]

  begin_flight-Holds :
      (key : ReadBlockKey) (cache : ReadBlockCache) → Holds cache → Holds (begin_flight key cache).0
  unfolding begin_flight
  begin_flight-Holds key cache h = ground (arith, h)

  -- What `load` does while no flight is in the air: it answers with a block that it holds, or it starts one.
  abbrev pub IsBegun : ReadBlockKey → ReadBlockCache × Begin → Type 0
  IsBegun key (cache, hit content) = Holds cache × P key content × (cache.flights ≡ [])
  IsBegun key (cache, join) = ⊥
  IsBegun key (cache, lead generation) = Holds cache × (cache.flights ≡ (key, tt) ∷ [])

  begin_flight-IsBegun :
      (key : ReadBlockKey) (cache : ReadBlockCache)
      → Holds cache
      → cache.flights ≡ []
      → IsBegun key (begin_flight key cache)
  unfolding begin_flight lookup insert
  begin_flight-IsBegun key cache h idle = rw (idle) (h, refl)

  pub load_begin-IsBegun :
      (key : ReadBlockKey) (now : ℕ) (cache : ReadBlockCache)
      → Holds cache
      → cache.flights ≡ []
      → IsBegun key (load_begin key now cache)
  unfolding load_begin
  load_begin-IsBegun key now cache h idle = elim (Option-cases (lookup key cache.entries)) [
    | inl e ↦ rw (e, load_begin) (begin_flight-IsBegun key cache h idle)
    | inr (entry, e) ↦ elim (Bool-cases (ltb now entry.expires)) [
      | inl live ↦
          rw (e, live, load_begin)
            (
              (λ k other found. insert-P cache.entries key _ h (h key entry e) k other found),
              h key entry e,
              idle,
            )
      | inr gone ↦
          rw (e, gone, load_begin)
            (begin_flight-IsBegun key (record cache { entries = delete key cache.entries })
              (λ k other found. ground (arith, h k other, lookup-delete key k cache.entries)) idle)
    ]
  ]

  pub load_end-Holds :
      (key : ReadBlockKey) (generation : ℕ) (content : Bytes) (now : ℕ) (cache : ReadBlockCache)
      → Holds cache
      → P key content
      → Holds (load_end key generation (ok content) now cache)
  unfolding load_end store_block
  load_end-Holds key generation content now cache h p =
      elim (Bool-cases (nat_beq (generation_of key.path cache.generations) generation)) [
        | inr e ↦ rw (e, load_end) h
        | inl e ↦ rw (e, load_end) (evict_while-Holds _ _ (insert-P cache.entries key _ h p))
      ]

flights-evict_while :
    (fuel : ℕ) (cache : ReadBlockCache) → (evict_while fuel cache).flights ≡ cache.flights
unfolding evict_while evict_oldest_locked
flights-evict_while zero cache = refl
flights-evict_while (suc fuel) cache =
    ground (arith, flights-evict_while fuel (evict_oldest_locked cache))

-- The only flight is over when its load ends.
pub load_end-flights :
    (key : ReadBlockKey) (generation : ℕ) (content : Bytes) (now : ℕ) (cache : ReadBlockCache)
    → cache.flights ≡ (key, tt) ∷ []
    → (load_end key generation (ok content) now cache).flights ≡ []
unfolding load_end store_block delete
load_end-flights key generation content now cache one =
    let gone : delete key cache.flights ≡ [] = rw (one) (ground (arith, beq_refl key)) in
    elim (Bool-cases (nat_beq (generation_of key.path cache.generations) generation)) [
      | inr e ↦ rw (e, load_end) gone
      | inl e ↦ rw (e, load_end) (flights-evict_while _ _ ∙ gone)
    ]
