-- ===== src/Agent/WriteBack/View/Buffer.antt =====
-- bufferWrite (pkg/agent/filesystem/write_linux.go) as a reader sees it.
use Prim.Native.Nat.{◌-◌}
use colnk.Common.{
  ℕ, zero, suc, ◌+◌, ◌<◌, ◌≤◌, ◌≡◌, refl, inl, inr, Bytes, length, length-take, length-drop,
  get_elem?-take, get_elem?-drop, take, drop, [], ◌∷◌, none, Bool, true, false, ltb, leb,
  bytes_beq_iff, if◌then◌else◌, lookup, nat_eq, arith, Option, Option-cases, Bool-cases, ap, ◌∙◌,
  Always, Always-map, OnDone, OnDone-map, done, Io, ◌>>◌, >>=-Always, >>=-OnDone, Ends-map,
  Ends-OnDone, >>=-Ends, >>=-OnDone_chain,
}
use colnk.Protocol.Types.{Request, Response, FileAttr, max_payload_bytes}
use colnk.Agent.WriteBlock.{PendingWriteBlock}
use colnk.Agent.WriteBack.{
  Node, max_pending_write_blocks, call, changed, flush_if, try_acquire, acquire_block,
  write_through, write_block, write_chunk, fresh_block, chunk_size, buffer_write, buffer_write_loop,
}
use colnk.Agent.WriteBack.View.{byte_of, block_of, spans, view, IsWell, IsFile, Wrote, WrotePartly}
use colnk.Agent.WriteBack.View.Write.{IsTarget, view-written, written-IsWell}
use colnk.Agent.WriteBack.View.Arrival.{call-writes}
use colnk.Agent.WriteBack.View.Flush.{IsView, IsView-trans, flush_if-IsView}

module _ {R : Type 0} (content_at : R → Bytes → ℕ → ℕ)
    (file : Request → Bytes → Io R (Response × Bytes)) (now : ℕ)
    (lawful : IsFile content_at file) where
  acquired-IsView :
      (n : Node R)
      → IsWell n
      → Always (IsView content_at file now lawful n) (try_acquire file now n)
  unfolding try_acquire view IsWell
  acquired-IsView n well = elim (Bool-cases (ltb 0 n.budget)) [
    | inl e ↦ rw (e, try_acquire) (refl, well, (λ i. refl), λ k h. h)
    | inr e ↦ rw (e, try_acquire) (refl, well, (λ i. refl), λ k h. h)
  ]

  retried-IsView :
      (acquired : Bool) (n : Node R)
      → IsWell n
      → Always (IsView content_at file now lawful n) (
          if acquired
          then done true n
          else (flush_if file now (ltb 0 (length n.write_blocks)) >> try_acquire file now) n)
  retried-IsView true n well = (refl, well, (λ i. refl), λ k h. h)
  retried-IsView false n well =
      >>=-Always (IsView content_at file now lawful n)
        (flush_if file now (ltb 0 (length n.write_blocks))) (λ _. try_acquire file now) n
        (flush_if-IsView content_at file now lawful _ n well)
        (λ _ t k.
          Always-map (IsView content_at file now lawful t) (IsView content_at file now lawful n)
            (λ u. IsView-trans content_at file now lawful n t u k) _ (acquired-IsView t (k.1)))

  acquire_block-IsView :
      (n : Node R)
      → IsWell n
      → Always (IsView content_at file now lawful n) (acquire_block file now n)
  unfolding acquire_block
  acquire_block-IsView n well =
      let V = IsView content_at file now lawful in
      >>=-Always (V n) (flush_if file now (leb max_pending_write_blocks (length n.write_blocks))) _
        n (flush_if-IsView content_at file now lawful _ n well)
        (λ _ t k.
          >>=-Always (V n) (try_acquire file now) _ t
            (Always-map (V t) (V n) (λ u. IsView-trans content_at file now lawful n t u k) _
              (acquired-IsView t (k.1)))
            (λ acquired u l.
              Always-map (V u) (V n) (λ v. IsView-trans content_at file now lawful n u v l) _
                (retried-IsView acquired u (l.1))))

  -- The state of the node in which a reader sees a text at an offset, and all else as in `n`.
  abbrev pub IsWritten : ℕ → Bytes → Node R → Node R → Type 0
  IsWritten offset chunk n t =
      (t.path ≡ n.path)
      × IsWell t
      × ((i : ℕ)
          → view content_at t i ≡ (
              if spans offset (length chunk) i
              then byte_of chunk (i - offset)
              else view content_at n i))

  through-IsWritten :
      (offset : ℕ) (chunk : Bytes) (n s : Node R) (attr : Option FileAttr)
      → IsWell n
      → lookup (block_of offset) n.write_blocks ≡ none
      → (offset - block_of offset) + length chunk ≤ max_payload_bytes
      → s ≡ record n { remote = s.remote }
      → Wrote content_at n.path offset chunk n.remote s.remote
      → IsWritten offset chunk n (changed file now attr s)
  unfolding changed view IsWell
  through-IsWritten offset chunk n s attr well absent fits e w =
      let blocks : s.write_blocks ≡ n.write_blocks = ap (λ m. m.write_blocks) e in
      let path : s.path ≡ n.path = ap (λ m. m.path) e in
      (
        path,
        (λ o b. rw (blocks) (well o b)),
        λ i.
            let here : spans offset (length chunk) i ≡ true → block_of i ≡ block_of offset =
              λ h. ground arith in
            rw (blocks, path)
              (ground (
                arith,
                w n.path i,
                absent,
                here,
                ap (λ k. lookup k n.write_blocks),
                bytes_beq_iff n.path n.path,
              )),
      )

  write_through-IsWritten :
      (offset : ℕ) (chunk : Bytes) (n : Node R)
      → IsWell n
      → lookup (block_of offset) n.write_blocks ≡ none
      → (offset - block_of offset) + length chunk ≤ max_payload_bytes
      → OnDone (λ _ t. IsWritten offset chunk n t) (write_through file now offset chunk n)
  unfolding write_through changed
  write_through-IsWritten offset chunk n well absent fits =
      Ends-OnDone (λ _ t. IsWritten offset chunk n t) (λ _. Unit {0}) _
        (>>=-Ends
          (λ _ s.
            (s ≡ record n { remote = s.remote })
            × Wrote content_at n.path offset chunk n.remote s.remote)
          (λ _ t. IsWritten offset chunk n t) (λ _. Unit {0}) (call file now _ chunk) _ n
          (Ends-map
            (λ (_ : Response) s.
              (s ≡ record n { remote = s.remote })
              × Wrote content_at n.path offset chunk n.remote s.remote)
            (λ (_ : Response) s.
              (s ≡ record n { remote = s.remote })
              × Wrote content_at n.path offset chunk n.remote s.remote)
            (λ s.
              (s ≡ record n { remote = s.remote })
              × WrotePartly content_at n.path offset chunk n.remote s.remote)
            (λ _. Unit {0}) (λ _ s h. h) (λ s h. tt) _
            (call-writes content_at file now lawful _ offset chunk n refl refl))
          (λ response s (e, w).
            through-IsWritten offset chunk n s response.attr well absent fits e w))

  block-IsWritten :
      (offset : ℕ) (block : PendingWriteBlock) (chunk : Bytes) (n : Node R)
      → IsWell n
      → IsTarget n (block_of offset) block
      → 0 < length chunk
      → (offset - block_of offset) + length chunk ≤ max_payload_bytes
      → OnDone
          (λ _ t. IsWritten offset chunk n t)
          (write_block file now (block_of offset) (offset - block_of offset) block chunk n)
  unfolding write_block
  block-IsWritten offset block chunk n well target positive fits = (
    refl,
    written-IsWell content_at n offset block chunk target positive fits well,
    λ i. view-written content_at n offset block chunk target positive fits i well,
  )

  -- A new block where a unit was acquired, and else a write through.
  fresh-IsWritten :
      (acquired : Bool) (offset : ℕ) (chunk : Bytes) (n : Node R)
      → IsWell n
      → lookup (block_of offset) n.write_blocks ≡ none
      → 0 < length chunk
      → (offset - block_of offset) + length chunk ≤ max_payload_bytes
      → OnDone
          (λ _ t. IsWritten offset chunk n t)
          ((if acquired
              then write_block file now
                  (block_of offset)
                  (offset - block_of offset)
                  fresh_block
                  chunk
              else write_through file now offset chunk)
            n)
  fresh-IsWritten true offset chunk n well absent positive fits =
      block-IsWritten offset fresh_block chunk n well (inr (absent, refl)) positive fits
  fresh-IsWritten false offset chunk n well absent positive fits =
      write_through-IsWritten offset chunk n well absent fits

  seen-IsWritten :
      (offset : ℕ) (chunk : Bytes) (n s t : Node R)
      → IsView content_at file now lawful n s
      → IsWritten offset chunk s t
      → IsWritten offset chunk n t
  seen-IsWritten offset chunk n s t (a, b, c, d) (e, f, g) = (e ∙ a, f, λ i. rw (← c i) (g i))

  write_chunk-IsWritten :
      (offset : ℕ) (chunk : Bytes) (n : Node R)
      → IsWell n
      → 0 < length chunk
      → (offset - block_of offset) + length chunk ≤ max_payload_bytes
      → OnDone (λ _ t. IsWritten offset chunk n t) (write_chunk file now offset chunk n)
  unfolding write_chunk write_block
  write_chunk-IsWritten offset chunk n well positive fits =
      elim (Option-cases (lookup (block_of offset) n.write_blocks)) [
        | inr (block, e) ↦
            rw (e, write_chunk) (block-IsWritten offset block chunk n well (inl e) positive fits)
        | inl e ↦
            rw (e, write_chunk)
              (>>=-OnDone (IsView content_at file now lawful n) (λ _ t. IsWritten offset chunk n t)
                (acquire_block file now) _ n (acquire_block-IsView n well)
                (λ acquired t v.
                  OnDone-map (λ _ u. IsWritten offset chunk t u) (λ _ u. IsWritten offset chunk n u)
                    (λ _ u h. seen-IsWritten offset chunk n t u v h) _
                    (fresh-IsWritten acquired offset chunk t (v.1) (v.3 (block_of offset) e)
                      positive fits)))
      ]

  -- A text in two parts, one behind the other.
  joined-IsWritten :
      (offset count : ℕ) (content : Bytes) (n s t : Node R)
      → count ≤ length content
      → IsWritten offset (take count content) n s
      → IsWritten (offset + count) (drop count content) s t
      → IsWritten offset content n t
  joined-IsWritten offset count content n s t le (a, b, c) (d, e, f) = (
    d ∙ a,
    e,
    λ i. ground (
      arith,
      c i,
      f i,
      length-take count content,
      length-drop count content,
      get_elem?-take count (i - offset) content,
      get_elem?-drop count (i - (offset + count)) content,
    ),
  )

  buffer_write_loop-IsWritten :
      (fuel offset : ℕ) (content : Bytes) (n : Node R)
      → length content ≤ fuel
      → IsWell n
      → OnDone
          (λ _ t. IsWritten offset content n t)
          (buffer_write_loop file now fuel offset content n)
  unfolding buffer_write_loop
  buffer_write_loop-IsWritten zero offset [] n h well = (refl, well, λ i. ground arith)
  buffer_write_loop-IsWritten zero offset (b ∷ content) n h well = absurd (omega arith)
  buffer_write_loop-IsWritten (suc fuel) offset [] n h well = (refl, well, λ i. ground arith)
  buffer_write_loop-IsWritten (suc fuel) offset (b ∷ content) n h well =
      let count = chunk_size offset (length (b ∷ content)) in
      let size = length-take count (b ∷ content) in
      let rest = length-drop count (b ∷ content) in
      >>=-OnDone_chain (λ _ s. IsWritten offset (take count (b ∷ content)) n s)
        (λ _ t. IsWritten offset (b ∷ content) n t)
        (write_chunk file now offset (take count (b ∷ content))) _ n
        (write_chunk-IsWritten offset (take count (b ∷ content)) n well (omega arith) (omega arith))
        (λ _ s w.
          OnDone-map (λ _ t. IsWritten (offset + count) (drop count (b ∷ content)) s t)
            (λ _ t. IsWritten offset (b ∷ content) n t)
            (λ _ t g. joined-IsWritten offset count (b ∷ content) n s t (omega arith) w g) _
            (buffer_write_loop-IsWritten fuel (offset + count) (drop count (b ∷ content)) s
              (omega arith) (w.1)))

  -- bufferWrite refines a write to the file as the node knows it: where it succeeds, a reader sees exactly
  -- the bytes of the text at its offset and all others as before, whatever blocks were sent on the way.
  pub buffer_write-IsWritten :
      (offset : ℕ) (content : Bytes) (n : Node R)
      → IsWell n
      → OnDone (λ _ t. IsWritten offset content n t) (buffer_write file now offset content n)
  unfolding buffer_write
  buffer_write-IsWritten offset content n well =
      buffer_write_loop-IsWritten (length content) offset content n (omega arith) well
