-- ===== src/Agent/WriteBack/Buffered.antt =====
-- bufferWrite (pkg/agent/filesystem/write_linux.go), the budget of blocks, and the rounds of its loop.
use colnk.Common.{
  ◌/◌, ◌*◌, length-drop, >>=-eq, ℕ, zero, suc, ◌+◌, ◌≤◌, ◌<◌, ◌≡◌, refl, ap, inl, inr, Bytes,
  length, take, drop, [], ◌∷◌, none, some, Bool, true, false, ltb, leb, if◌then◌else◌, nat_eq,
  lookup, Distinct, done, Io, ◌>>◌, Always, >>=-Always, Always-map, Ends, >>=-Ends, Ends-intro,
  Ends-Always, Always-Ends, arith, Option-cases, Bool-cases, insert-Distinct,
}
use colnk.Protocol.Types.{Request, Response, max_payload_bytes}
use colnk.Agent.WriteBlock.{PendingWriteBlock, write}
use colnk.Agent.WriteBack.{
  Node, call, changed, chunk_size, max_pending_write_blocks, flush_writes_locked, try_acquire,
  flush_if, acquire_block, write_through, write_block, write_chunk, fresh_block, buffer_write_loop,
  buffer_write,
}
use colnk.Agent.WriteBack.Budget.{Same, call-Same, IsBudgeted, Same-IsBudgeted, length-insert}
use colnk.Agent.WriteBack.Bounded.{
  IsEmptied, IsEmptied-IsBudgeted, flush_writes_locked-IsBudgeted, flush_writes_locked-IsEmptied,
}

module _ {R : Type 0} (file : Request → Bytes → Io R (Response × Bytes)) (now total key : ℕ) where
  -- There is room for one more block, at the key.
  abbrev IsRoomy : Node R → Type 0
  IsRoomy n =
      IsBudgeted file now total n
      × (length n.write_blocks < max_pending_write_blocks)
      × (lookup key n.write_blocks ≡ none)

  -- A unit was taken for a block that is still to come, or not.
  abbrev IsAcquired : Bool → Node R → Type 0
  IsAcquired true n =
      Distinct n.write_blocks
      × (length n.write_blocks + n.budget + 1 ≡ total)
      × (length n.write_blocks < max_pending_write_blocks)
      × (lookup key n.write_blocks ≡ none)
  IsAcquired false n = IsRoomy n

  roomy : (s : Node R) → IsEmptied file now total s → IsRoomy s
  unfolding lookup
  roomy s (h, b) =
      let e : length s.write_blocks ≡ 0 = ap length h in
      (IsEmptied-IsBudgeted file now total s (h, b), omega arith, rw h refl)

  flush-Ends :
      (n : Node R)
      → IsBudgeted file now total n
      → Ends (λ _ s. IsRoomy s) (IsBudgeted file now total) (flush_if file now true n)
  unfolding flush_if
  flush-Ends n i =
      >>=-Ends (λ _ s. IsEmptied file now total s) (λ _ s. IsRoomy s) (IsBudgeted file now total)
        (flush_writes_locked file now false) _ n
        (Ends-intro (λ _ s. IsEmptied file now total s) (IsBudgeted file now total) _
          (flush_writes_locked-IsEmptied file now total false n i)
          (flush_writes_locked-IsBudgeted file now total false n i))
        (λ _ t h. roomy t h)

  flush_full-Ends :
      (full : Bool) (n : Node R)
      → IsBudgeted file now total n
      → (full ≡ false → length n.write_blocks < max_pending_write_blocks)
      → lookup key n.write_blocks ≡ none
      → Ends (λ _ s. IsRoomy s) (IsBudgeted file now total) (flush_if file now full n)
  unfolding flush_if
  flush_full-Ends true n i h a = flush-Ends n i
  flush_full-Ends false n i h a = (i, h refl, a)

  try_acquire-Ends :
      (n : Node R)
      → IsRoomy n
      → Ends IsAcquired (IsBudgeted file now total) (try_acquire file now n)
  unfolding try_acquire
  try_acquire-Ends n ((d, b, l), r, a) = elim (Bool-cases (ltb 0 n.budget)) [
    | inl e ↦ rw (e, try_acquire) (d, ground arith, r, a)
    | inr e ↦ rw (e, try_acquire) ((d, b, l), r, a)
  ]

  -- The second attempt, behind a flush of the node's own blocks.
  retry-Ends :
      (acquired : Bool) (n : Node R)
      → IsAcquired acquired n
      → Ends IsAcquired (IsBudgeted file now total) (
          if acquired
          then done true n
          else (flush_if file now (ltb 0 (length n.write_blocks)) >> try_acquire file now) n)
  retry-Ends true n h = h
  retry-Ends false n (i, r, a) =
      >>=-Ends (λ _ s. IsRoomy s) IsAcquired (IsBudgeted file now total)
        (flush_if file now (ltb 0 (length n.write_blocks))) (λ _. try_acquire file now) n
        (flush_full-Ends (ltb 0 (length n.write_blocks)) n i (λ _. r) a)
        (λ _ t k. try_acquire-Ends t k)

  acquire_block-Ends :
      (n : Node R)
      → IsBudgeted file now total n
      → lookup key n.write_blocks ≡ none
      → Ends IsAcquired (IsBudgeted file now total) (acquire_block file now n)
  unfolding acquire_block
  acquire_block-Ends n i a =
      >>=-Ends (λ _ s. IsRoomy s) IsAcquired (IsBudgeted file now total)
        (flush_if file now (leb max_pending_write_blocks (length n.write_blocks))) _ n
        (flush_full-Ends (leb max_pending_write_blocks (length n.write_blocks)) n i
          (λ e. ground arith) a)
        (λ _ t k.
          >>=-Ends IsAcquired IsAcquired (IsBudgeted file now total) (try_acquire file now) _ t
            (try_acquire-Ends t k) (λ acquired u j. retry-Ends acquired u j))

  write_through-IsBudgeted :
      (offset : ℕ) (chunk : Bytes) (n : Node R)
      → IsBudgeted file now total n
      → Always (IsBudgeted file now total) (write_through file now offset chunk n)
  unfolding write_through changed
  write_through-IsBudgeted offset chunk n i =
      >>=-Always (IsBudgeted file now total) (call file now _ chunk) _ n
        (Always-map (Same file now n) (IsBudgeted file now total)
          (λ s h. Same-IsBudgeted file now total n s i h) _ (call-Same file now _ chunk n))
        (λ response m k. k)

  -- A write to a block that is pending, or to a new one that has its unit.
  write_pending-IsBudgeted :
      (inside : ℕ) (block : PendingWriteBlock) (chunk : Bytes) (n : Node R)
      → IsBudgeted file now total n
      → lookup key n.write_blocks ≡ some block
      → Always (IsBudgeted file now total) (write_block file now key inside block chunk n)
  unfolding write_block
  write_pending-IsBudgeted inside block chunk n (d, b, l) h =
      let e = length-insert key (write block inside chunk) n.write_blocks in
      (insert-Distinct key _ n.write_blocks d, ground (arith, e, h), ground (arith, e, h))

  write_new-IsBudgeted :
      (acquired : Bool) (offset inside : ℕ) (chunk : Bytes) (n : Node R)
      → IsAcquired acquired n
      → Always (IsBudgeted file now total) (
          (if acquired
              then write_block file now key inside fresh_block chunk
              else write_through file now offset chunk)
            n)
  unfolding write_block
  write_new-IsBudgeted true offset inside chunk n (d, b, l, h) =
      let e = length-insert key (write fresh_block inside chunk) n.write_blocks in
      (insert-Distinct key _ n.write_blocks d, ground (arith, e, h), ground (arith, e, h))
  write_new-IsBudgeted false offset inside chunk n (i, _, _) =
      write_through-IsBudgeted offset chunk n i

module _ {R : Type 0} (file : Request → Bytes → Io R (Response × Bytes)) (now total : ℕ) where
  write_chunk-IsBudgeted :
      (offset : ℕ) (chunk : Bytes) (n : Node R)
      → IsBudgeted file now total n
      → Always (IsBudgeted file now total) (write_chunk file now offset chunk n)
  unfolding write_chunk
  write_chunk-IsBudgeted offset chunk n i =
      let key = offset / max_payload_bytes * max_payload_bytes in
      elim (Option-cases (lookup key n.write_blocks)) [
        | inr (block, e) ↦
            rw (e, write_chunk) (write_pending-IsBudgeted file now total key _ block chunk n i e)
        | inl e ↦
            rw (e, write_chunk)
              (Ends-Always (IsBudgeted file now total) _ (
                >>=-Ends (IsAcquired file now total key) (λ _ s. IsBudgeted file now total s)
                  (IsBudgeted file now total) (acquire_block file now) _ n
                  (acquire_block-Ends file now total key n i e)
                  (λ acquired t k.
                    Always-Ends (IsBudgeted file now total) _
                      (write_new-IsBudgeted file now total key acquired offset _ chunk t k))))
      ]

  buffer_write_loop-IsBudgeted :
      (fuel offset : ℕ) (content : Bytes) (n : Node R)
      → IsBudgeted file now total n
      → Always (IsBudgeted file now total) (buffer_write_loop file now fuel offset content n)
  unfolding buffer_write_loop
  buffer_write_loop-IsBudgeted zero offset content n i = i
  buffer_write_loop-IsBudgeted (suc fuel) offset [] n i = i
  buffer_write_loop-IsBudgeted (suc fuel) offset (b ∷ content) n i =
      let count = chunk_size offset (length (b ∷ content)) in
      >>=-Always (IsBudgeted file now total)
        (write_chunk file now offset (take count (b ∷ content))) _ n
        (write_chunk-IsBudgeted offset (take count (b ∷ content)) n i)
        (λ _ t k. buffer_write_loop-IsBudgeted fuel (offset + count) (drop count (b ∷ content)) t k)

  -- bufferWrite keeps to the budget, whether it succeeds or fails: no offset has two blocks, at most
  -- eight blocks are pending, and each of them holds a unit.
  pub buffer_write-IsBudgeted :
      (offset : ℕ) (content : Bytes) (n : Node R)
      → IsBudgeted file now total n
      → Always (IsBudgeted file now total) (buffer_write file now offset content n)
  unfolding buffer_write
  buffer_write-IsBudgeted offset content n i =
      buffer_write_loop-IsBudgeted (length content) offset content n i

-- A round of the loop takes at least one byte.
chunk_size_positive : (offset rest : ℕ) → 0 < chunk_size offset (suc rest)
chunk_size_positive offset rest = omega arith

module _ {R : Type 0} (file : Request → Bytes → Io R (Response × Bytes)) (now : ℕ) where
  two_fuels :
      (f g offset : ℕ) (content : Bytes) (n : Node R)
      → length content ≤ f
      → length content ≤ g
      → buffer_write_loop file now f offset content n
        ≡ buffer_write_loop file now g offset content n
  unfolding buffer_write_loop
  two_fuels zero zero offset content n hf hg = refl
  two_fuels zero (suc g) offset [] n hf hg = refl
  two_fuels zero (suc g) offset (b ∷ content) n hf hg = ground arith
  two_fuels (suc f) zero offset [] n hf hg = refl
  two_fuels (suc f) zero offset (b ∷ content) n hf hg = ground arith
  two_fuels (suc f) (suc g) offset [] n hf hg = refl
  two_fuels (suc f) (suc g) offset (b ∷ content) n hf hg =
      let count = chunk_size offset (length (b ∷ content)) in
      let shorter : length (drop count (b ∷ content)) ≤ length content =
        omega
          (arith, length-drop count (b ∷ content), chunk_size_positive offset (length content)) in
      >>=-eq (write_chunk file now offset (take count (b ∷ content))) _ _ n (λ _ t.
        two_fuels f g (offset + count) (drop count (b ∷ content)) t (omega arith) (omega arith))

  -- The loop of bufferWrite ends: with fuel for as many rounds as there are bytes, or with more, it does
  -- what bufferWrite does.
  pub buffer_write_loop_fuel :
      (fuel offset : ℕ) (content : Bytes) (n : Node R)
      → length content ≤ fuel
      → buffer_write_loop file now fuel offset content n ≡ buffer_write file now offset content n
  unfolding buffer_write
  buffer_write_loop_fuel fuel offset content n h =
      two_fuels fuel (length content) offset content n h (omega arith)
