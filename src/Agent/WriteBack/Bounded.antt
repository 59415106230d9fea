-- ===== src/Agent/WriteBack/Bounded.antt =====
-- flushWritesLocked (pkg/agent/filesystem/write_linux.go) and the budget of blocks.
use colnk.Common.{
  ℕ, ◌≡◌, refl, ap, ◌∙◌, inl, inr, Bytes, length, [], Option, Bool, true, false, nat_eq, Io, ◌>>◌,
  pure, Always, >>=-Always, Always-map, >>=-Always_both, OnDone, >>=-OnDone_both, Always-OnDone,
  arith, Option-cases,
}
use colnk.Protocol.Types.{Request, Response, FileAttr}
use colnk.Agent.WriteBack.{
  Node, call, changed, flush_blocks, finish_blocks, finish_mtime, finish_flush, flush_writes_locked,
  sorted_offsets,
}
use colnk.Agent.WriteBack.Budget.{
  Same, call-Same, IsBudgeted, flush_blocks-IsBudgeted, IsLeft, flush_blocks-IsLeft,
  lookup-sorted_offsets, nothing_left,
}

module _ {R : Type 0} (file : Request → Bytes → Io R (Response × Bytes)) (now : ℕ) where
  -- The blocks are gone and their units are back.
  abbrev pub IsEmptied : ℕ → Node R → Type 0
  IsEmptied total n = (n.write_blocks ≡ []) × (n.budget ≡ total)

  pub left_none :
      (n s : Node R) → IsLeft file now (sorted_offsets n.write_blocks) n s → s.write_blocks ≡ []
  left_none n s h =
      nothing_left s.write_blocks (λ k. ground (arith, h k, lookup-sorted_offsets k n.write_blocks))

  emptied :
      (total : ℕ) (s : Node R)
      → IsBudgeted file now total s
      → s.write_blocks ≡ []
      → IsEmptied total s
  emptied total s (d, b, l) h = let e : length s.write_blocks ≡ 0 = ap length h in (h, omega arith)

  pub IsEmptied-IsBudgeted :
      (total : ℕ) (s : Node R) → IsEmptied total s → IsBudgeted file now total s
  IsEmptied-IsBudgeted total s (h, b) =
      let e : length s.write_blocks ≡ 0 = ap length h in (rw h tt, omega arith, omega arith)

  changed-Same : (attr : Option FileAttr) (n : Node R) → Same file now n (changed file now attr n)
  unfolding changed
  changed-Same attr n = (refl, refl)

  finish_blocks-IsEmptied :
      (total : ℕ) (any_blocks : Bool) (latest : Option FileAttr) (s : Node R)
      → IsEmptied total s
      → Always (IsEmptied total) (finish_blocks file now any_blocks latest s)
  unfolding finish_blocks changed
  finish_blocks-IsEmptied total false latest s h = h
  finish_blocks-IsEmptied total true latest s h = (refl, h.1)

  Same-IsEmptied :
      (total : ℕ) (n s : Node R) → IsEmptied total n → Same file now n s → IsEmptied total s
  Same-IsEmptied total n s (h, b) (e, f) = (e ∙ h, f ∙ b)

  call-IsEmptied :
      (total : ℕ) (request : Request) (content : Bytes) (s : Node R)
      → IsEmptied total s
      → Always (IsEmptied total) (call file now request content s)
  call-IsEmptied total request content s h =
      Always-map (Same file now s) (IsEmptied total) (λ t. Same-IsEmptied total s t h) _
        (call-Same file now request content s)

  finish_mtime-IsEmptied :
      (total : ℕ) (s : Node R)
      → IsEmptied total s
      → Always (IsEmptied total) (finish_mtime file now s)
  unfolding finish_mtime changed
  finish_mtime-IsEmptied total s h = elim (Option-cases s.write_mtime) [
    | inl e ↦ rw (e, finish_mtime) h
    | inr (t, e) ↦
        rw (e, finish_mtime)
          (>>=-Always (IsEmptied total) (call file now _ _) _ s (call-IsEmptied total _ _ s h)
            (λ response m k. k))
  ]

  finish_flush-IsEmptied :
      (total : ℕ) (any_blocks synced : Bool) (latest : Option FileAttr) (s : Node R)
      → IsEmptied total s
      → Always (IsEmptied total) (finish_flush file now any_blocks synced latest s)
  unfolding finish_flush
  finish_flush-IsEmptied total any_blocks synced latest s h =
      >>=-Always (IsEmptied total) (finish_blocks file now any_blocks latest)
        (λ _. finish_mtime file now >> pure synced) s
        (finish_blocks-IsEmptied total any_blocks latest s h)
        (λ _ u k.
          >>=-Always (IsEmptied total) (finish_mtime file now) (λ _. pure synced) u
            (finish_mtime-IsEmptied total u k) (λ _ v l. l))

  -- flushWritesLocked keeps to the budget, whether it succeeds or fails.
  pub flush_writes_locked-IsBudgeted :
      (total : ℕ) (sync_last : Bool) (n : Node R)
      → IsBudgeted file now total n
      → Always (IsBudgeted file now total) (flush_writes_locked file now sync_last n)
  unfolding flush_writes_locked
  flush_writes_locked-IsBudgeted total sync_last n i =
      >>=-Always_both (IsBudgeted file now total)
        (λ _ s. IsLeft file now (sorted_offsets n.write_blocks) n s) (IsBudgeted file now total)
        (flush_blocks file now sync_last (sorted_offsets n.write_blocks) _) _ n
        (flush_blocks-IsBudgeted file now sync_last total (sorted_offsets n.write_blocks) _ n i)
        (flush_blocks-IsLeft file now sync_last (sorted_offsets n.write_blocks) _ n) (λ t j. j)
        (λ p t j g.
          Always-map (IsEmptied total) (IsBudgeted file now total) (IsEmptied-IsBudgeted total) _
            (finish_flush-IsEmptied total _ _ p.latest t (emptied total t j (left_none n t g))))

  -- Where flushWritesLocked succeeds, nothing is pending behind it and all units are back.
  pub flush_writes_locked-IsEmptied :
      (total : ℕ) (sync_last : Bool) (n : Node R)
      → IsBudgeted file now total n
      → OnDone (λ _ s. IsEmptied total s) (flush_writes_locked file now sync_last n)
  unfolding flush_writes_locked
  flush_writes_locked-IsEmptied total sync_last n i =
      >>=-OnDone_both (IsBudgeted file now total)
        (λ _ s. IsLeft file now (sorted_offsets n.write_blocks) n s) (λ s. Unit {0})
        (λ _ s. IsEmptied total s)
        (flush_blocks file now sync_last (sorted_offsets n.write_blocks) _) _ n
        (flush_blocks-IsBudgeted file now sync_last total (sorted_offsets n.write_blocks) _ n i)
        (flush_blocks-IsLeft file now sync_last (sorted_offsets n.write_blocks) _ n)
        (λ p t j g.
          Always-OnDone (IsEmptied total) _
            (finish_flush-IsEmptied total _ _ p.latest t (emptied total t j (left_none n t g))))
