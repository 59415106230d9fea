-- ===== src/Agent/WriteBack/Budget.antt =====
-- The blocks of a node and the units of the budget (pkg/agent/filesystem/write_linux.go).
use colnk.Common.{
  ℕ, ◌+◌, ◌≤◌, ◌≡◌, refl, ◌⊎◌, inl, inr, Bytes, length, List, [], ◌∷◌, none, some, Bool, false,
  ◌||◌, nat_beq, if◌then◌else◌, nat_eq, Map, lookup, insert, delete, Distinct, Outcome, done,
  failed, Io, Always, >>=-Always, Always-map, >>=-Always_through, OnDone, >>=-OnDone, OnDone-map,
  any, arith, Option-cases, nat_beq_iff, delete-Distinct, lookup-delete,
}
use colnk.Protocol.Types.{Request, Response}
use colnk.Agent.WriteBlock.{WriteRange, PendingWriteBlock}
use colnk.Agent.WriteBack.{
  Node, Progress, max_pending_write_blocks, call, flush_range, flush_ranges, drop_block,
  flush_blocks, sorted_offsets, insert_sorted,
}

abbrev pub Blocks : Type 0
Blocks = Map ℕ PendingWriteBlock

length-delete_absent : (k : ℕ) (m : Blocks) → lookup k m ≡ none → length (delete k m) ≡ length m
unfolding lookup delete
length-delete_absent k [] h = refl
length-delete_absent k ((j, w) ∷ m) h = ground (arith, length-delete_absent k m)

-- A key that is present stands once in a map without repeated keys.
length-delete :
    (k : ℕ) (v : PendingWriteBlock) (m : Blocks)
    → Distinct m
    → lookup k m ≡ some v
    → length (delete k m) + 1 ≡ length m
unfolding lookup delete
length-delete k v [] d h = ground arith
length-delete k v ((j, w) ∷ m) d h =
    ground (arith, length-delete k v m d.1, length-delete_absent k m, nat_beq_iff j k)

pub length-insert :
    (k : ℕ) (v : PendingWriteBlock) (m : Blocks)
    → length (insert k v m) ≡ length m + (elim (lookup k m) [ none ↦ 1 | some _ ↦ 0 ])
unfolding lookup insert
length-insert k v [] = refl
length-insert k v ((j, w) ∷ m) = ground (arith, length-insert k v m)

unfoldable pub has_offset : ℕ → List ℕ → Bool
unfolding any
has_offset k offsets = any (λ offset. nat_beq offset k) offsets

has_offset-insert_sorted :
    (k n : ℕ) (ms : List ℕ) → has_offset k (insert_sorted n ms) ≡ nat_beq n k || has_offset k ms
unfolding has_offset any insert_sorted
has_offset-insert_sorted k n [] = ground arith
has_offset-insert_sorted k n (m ∷ ms) = ground (arith, has_offset-insert_sorted k n ms)

-- A block whose offset is not among the sorted ones is not pending.
pub lookup-sorted_offsets :
    (k : ℕ) (m : Blocks) → has_offset k (sorted_offsets m) ≡ false → lookup k m ≡ none
unfolding sorted_offsets lookup has_offset any
lookup-sorted_offsets k [] h = refl
lookup-sorted_offsets k ((j, w) ∷ m) h = ground (
  arith,
  lookup-sorted_offsets k m,
  has_offset-insert_sorted k j (sorted_offsets m),
  nat_beq_iff j k,
)

pub nothing_left : (m : Blocks) → ((k : ℕ) → lookup k m ≡ none) → m ≡ []
unfolding lookup
nothing_left [] h = refl
nothing_left ((j, w) ∷ m) h = ground (arith, h j, nat_beq_iff j j)

module _ {R : Type 0} (file : Request → Bytes → Io R (Response × Bytes)) (now : ℕ) where
  -- The blocks and the budget are those of another state.
  abbrev pub Same : Node R → Node R → Type 0
  Same n s = (s.write_blocks ≡ n.write_blocks) × (s.budget ≡ n.budget)

  Outcome-Same :
      (n : Node R) (o : Outcome R (Response × Bytes))
      → Always (Same n) (elim o [
        | done (response, _) r ↦ done response (record n { remote = r })
        | failed e r ↦ failed e (record n { remote = r })
      ])
  Outcome-Same n (done _ r) = (refl, refl)
  Outcome-Same n (failed e r) = (refl, refl)

  pub call-Same :
      (request : Request) (content : Bytes) (n : Node R)
      → Always (Same n) (call file now request content n)
  unfolding call
  call-Same request content n = Outcome-Same n (file request content n.remote)

  flush_range-Same :
      (sync_last : Bool) (offset : ℕ) (content : Bytes) (dirty : WriteRange) (p : Progress)
      (n : Node R)
      → Always (Same n) (flush_range file now sync_last offset content dirty p n)
  unfolding flush_range
  flush_range-Same sync_last offset content dirty p n =
      >>=-Always (Same n) (call file now _ _) _ n (call-Same _ _ n) (λ _ s h. h)

  flush_ranges-Same :
      (sync_last : Bool) (offset : ℕ) (content : Bytes) (dirty : List WriteRange) (p : Progress)
      (n m : Node R)
      → Same n m
      → Always (Same n) (flush_ranges file now sync_last offset content dirty p m)
  unfolding flush_ranges
  flush_ranges-Same sync_last offset content [] p n m h = h
  flush_ranges-Same sync_last offset content (r ∷ rest) p n m h =
      >>=-Always (Same n) (flush_range file now sync_last offset content r p) _ m
        (Always-map (Same m) (Same n) (λ s k. ground (arith, k)) _
          (flush_range-Same sync_last offset content r p m))
        (λ q s k. flush_ranges-Same sync_last offset content rest q n s k)

  -- No offset stands twice, at most eight blocks are pending, and each holds a unit.
  abbrev pub IsBudgeted : ℕ → Node R → Type 0
  IsBudgeted total n =
      Distinct n.write_blocks
      × (length n.write_blocks + n.budget ≡ total)
      × (length n.write_blocks ≤ max_pending_write_blocks)

  pub Same-IsBudgeted :
      (total : ℕ) (n s : Node R) → IsBudgeted total n → Same n s → IsBudgeted total s
  Same-IsBudgeted total n s (d, b, l) (e, f) = (rw e d, rw e (rw f b), rw e l)

  drop_block-IsBudgeted :
      (total offset : ℕ) (block : PendingWriteBlock) (n : Node R)
      → IsBudgeted total n
      → lookup offset n.write_blocks ≡ some block
      → Always (IsBudgeted total) (drop_block file now offset n)
  unfolding drop_block
  drop_block-IsBudgeted total offset block n (d, b, l) h = (
    delete-Distinct offset n.write_blocks d,
    omega (arith, length-delete offset block n.write_blocks d h),
    omega (arith, length-delete offset block n.write_blocks d h),
  )

  pub flush_blocks-IsBudgeted :
      (sync_last : Bool) (total : ℕ) (offsets : List ℕ) (p : Progress) (n : Node R)
      → IsBudgeted total n
      → Always (IsBudgeted total) (flush_blocks file now sync_last offsets p n)
  unfolding flush_blocks
  flush_blocks-IsBudgeted sync_last total [] p n i = i
  flush_blocks-IsBudgeted sync_last total (offset ∷ offsets) p n i =
      elim (Option-cases (lookup offset n.write_blocks)) [
        | inl e ↦ rw (e, flush_blocks) (flush_blocks-IsBudgeted sync_last total offsets p n i)
        | inr (block, e) ↦
            rw (e, flush_blocks)
              (>>=-Always_through (Same n) (IsBudgeted total)
                (flush_ranges file now sync_last offset block.content block.dirty p) _ n
                (flush_ranges-Same sync_last offset block.content block.dirty p n n (refl, refl))
                (λ s h. Same-IsBudgeted total n s i h)
                (λ q s h.
                  >>=-Always (IsBudgeted total) (drop_block file now offset) _ s
                    (drop_block-IsBudgeted total offset block s (Same-IsBudgeted total n s i h)
                      (rw (h.0) e))
                    (λ _ t j. flush_blocks-IsBudgeted sync_last total offsets q t j)))
      ]

  -- Of the blocks of `n`, those at the offsets are gone and the others are as they were.
  abbrev pub IsLeft : List ℕ → Node R → Node R → Type 0
  IsLeft offsets n s =
      (k : ℕ)
      → (lookup k s.write_blocks ≡ none)
        ⊎ ((has_offset k offsets ≡ false) × (lookup k s.write_blocks ≡ lookup k n.write_blocks))

  abbrev IsWithout : ℕ → Node R → Node R → Type 0
  IsWithout offset n t =
      (k : ℕ)
      → lookup k t.write_blocks ≡ (if nat_beq offset k then none else lookup k n.write_blocks)

  drop_block-lookup :
      (offset : ℕ) (n s : Node R)
      → Same n s
      → Always (IsWithout offset n) (drop_block file now offset s)
  unfolding drop_block
  drop_block-lookup offset n s h k = rw (h.0) (lookup-delete offset k n.write_blocks)

  pub flush_blocks-IsLeft :
      (sync_last : Bool) (offsets : List ℕ) (p : Progress) (n : Node R)
      → OnDone (λ _ s. IsLeft offsets n s) (flush_blocks file now sync_last offsets p n)
  unfolding flush_blocks has_offset
  flush_blocks-IsLeft sync_last [] p n = λ k. inr (refl, refl)
  flush_blocks-IsLeft sync_last (offset ∷ offsets) p n =
      elim (Option-cases (lookup offset n.write_blocks)) [
        | inl e ↦
            rw (e, flush_blocks)
              (OnDone-map (λ _ s. IsLeft offsets n s) (λ _ s. IsLeft (offset ∷ offsets) n s)
                (λ _ s h k. ground (arith, h k, e, nat_beq_iff offset k)) _
                (flush_blocks-IsLeft sync_last offsets p n))
        | inr (block, e) ↦
            rw (e, flush_blocks)
              (>>=-OnDone (Same n) (λ _ s. IsLeft (offset ∷ offsets) n s)
                (flush_ranges file now sync_last offset block.content block.dirty p) _ n
                (flush_ranges-Same sync_last offset block.content block.dirty p n n (refl, refl))
                (λ q s h.
                  >>=-OnDone (IsWithout offset n) (λ _ s. IsLeft (offset ∷ offsets) n s)
                    (drop_block file now offset) _ s (drop_block-lookup offset n s h)
                    (λ _ t j.
                      OnDone-map (λ _ u. IsLeft offsets t u) (λ _ u. IsLeft (offset ∷ offsets) n u)
                        (λ _ u g k. ground (arith, g k, j k)) _
                        (flush_blocks-IsLeft sync_last offsets q t))))
      ]
