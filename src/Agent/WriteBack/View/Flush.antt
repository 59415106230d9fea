-- ===== src/Agent/WriteBack/View/Flush.antt =====
-- flushWritesLocked (pkg/agent/filesystem/write_linux.go) as a reader sees it.
use colnk.Common.{
  ℕ, ◌≡◌, refl, inl, inr, Bytes, codes, List, [], ◌∷◌, none, some, Bool, true, false, nat_beq_iff,
  lookup, lookup-delete, nat_eq, arith, Option-cases, ◌∙◌, Always, Always-map, done, failed, Io,
  ◌>>◌, pure, Option, Outcome, >>=-Always, >>=-Always_both, >>=-Ends, Ends-map, Ends-Always,
  Always-Ends,
}
use colnk.Protocol.Types.{Request, Response, FileAttr}
use colnk.Agent.WriteBlock.{PendingWriteBlock}
use colnk.Agent.WriteBack.{
  Node, Progress, call, changed, flush_ranges, drop_block, flush_blocks, finish_blocks,
  finish_mtime, finish_flush, flush_writes_locked, sorted_offsets, flush_if,
}
use colnk.Agent.WriteBack.Budget.{flush_blocks-IsLeft, IsLeft}
use colnk.Agent.WriteBack.Bounded.{left_none}
use colnk.Agent.WriteBack.View.{block_of, view, IsBlock, IsWell, IsFile}
use colnk.Agent.WriteBack.View.Arrival.{IsStopped, IsArrived, flush_ranges-IsArrived}

module _ {R : Type 0} (content_at : R → Bytes → ℕ → ℕ)
    (file : Request → Bytes → Io R (Response × Bytes)) (now : ℕ)
    (lawful : IsFile content_at file) where
  -- A state of the node in which a reader sees what he saw in `n`, and in which no block is new.
  abbrev pub IsView : Node R → Node R → Type 0
  IsView n t =
      (t.path ≡ n.path)
      × IsWell t
      × ((i : ℕ) → view content_at t i ≡ view content_at n i)
      × ((key : ℕ) → lookup key n.write_blocks ≡ none → lookup key t.write_blocks ≡ none)

  pub IsView-trans : (n s t : Node R) → IsView n s → IsView s t → IsView n t
  IsView-trans n s t (a, b, c, d) (e, f, g, h) = (e ∙ a, f, (λ i. g i ∙ c i), λ k x. h k (d k x))

  module _ (n : Node R) (key : ℕ) (block : PendingWriteBlock) (well : IsWell n)
      (pending : lookup key n.write_blocks ≡ some block) where
    whole : IsBlock key block
    unfolding IsWell
    whole = well key block pending

    stopped-IsView :
        (s : Node R) → IsStopped content_at file now lawful n key block whole s → IsView n s
    unfolding view IsWell
    stopped-IsView s (a, b, c) = (
      a,
      (λ offset other. rw (b) (well offset other)),
      (λ i. rw (a, b) (ground (arith, c i, pending, nat_beq_iff (block_of i) key))),
      λ k. rw (b) λ e. e,
    )

    dropped-IsView :
        (s : Node R)
        → IsArrived content_at file now lawful n key block whole [] s
        → Always (IsView n) (drop_block file now key s)
    unfolding view IsWell drop_block
    dropped-IsView s ((a, b, c), d) = (
      a,
      (λ offset other.
          rw (b, lookup-delete key offset n.write_blocks) (ground (arith, well offset other))),
      (λ i.
          rw (a, b)
            (ground (
              arith,
              lookup-delete key (block_of i) n.write_blocks,
              c i,
              d i,
              pending,
              nat_beq_iff key (block_of i),
              nat_beq_iff (block_of i) key,
            ))),
      λ k. rw (b, lookup-delete key k n.write_blocks) (ground arith),
    )

  flush_blocks-IsView :
      (sync_last : Bool) (offsets : List ℕ) (p : Progress) (n : Node R)
      → IsWell n
      → Always (IsView n) (flush_blocks file now sync_last offsets p n)
  unfolding flush_blocks
  flush_blocks-IsView sync_last [] p n well = (refl, well, (λ i. refl), λ k e. e)
  flush_blocks-IsView sync_last (offset ∷ offsets) p n well =
      elim (Option-cases (lookup offset n.write_blocks)) [
        | inl e ↦ rw (e, flush_blocks) (flush_blocks-IsView sync_last offsets p n well)
        | inr (block, e) ↦
            rw (e, flush_blocks)
              (Ends-Always (IsView n) _ (
                >>=-Ends
                  (λ _ s.
                    IsArrived content_at file now lawful n offset block
                      (whole n offset block well e) [] s)
                  (λ _ s. IsView n s) (IsView n)
                  (flush_ranges file now sync_last offset block.content block.dirty p) _ n
                  (Ends-map
                    (λ (_ : Progress) s.
                      IsArrived content_at file now lawful n offset block
                        (whole n offset block well e) [] s)
                    (λ (_ : Progress) s.
                      IsArrived content_at file now lawful n offset block
                        (whole n offset block well e) [] s)
                    (IsStopped content_at file now lawful n offset block
                      (whole n offset block well e))
                    (IsView n) (λ _ s h. h) (stopped-IsView n offset block well e) _
                    (flush_ranges-IsArrived content_at file now lawful n offset block
                      (whole n offset block well e) sync_last block.dirty p n (λ i h. h)
                      ((refl, refl, λ i h. refl), λ i h k. ground arith)))
                  (λ q s h. Always-Ends (IsView n) _ (
                    >>=-Always (IsView n) (drop_block file now offset) _ s
                      (dropped-IsView n offset block well e s h)
                      (λ _ t k.
                        Always-map (IsView t) (IsView n) (λ u. IsView-trans n t u k) _
                          (flush_blocks-IsView sync_last offsets q t (k.1)))))))
      ]

  nothing-IsView :
      (n t : Node R)
      → IsView n t
      → t.write_blocks ≡ []
      → (latest : Option FileAttr)
      → IsView n (changed file now latest (record t { write_blocks = []; write_mtime = none }))
  unfolding view IsWell lookup changed
  nothing-IsView n t (a, b, c, d) e latest =
      (a, (λ o x h. ground arith), (λ i. rw (← c i, e) refl), λ k h. refl)

  finish_blocks-IsView :
      (any_blocks : Bool) (latest : Option FileAttr) (n t : Node R)
      → IsView n t
      → t.write_blocks ≡ []
      → Always (IsView n) (finish_blocks file now any_blocks latest t)
  unfolding finish_blocks
  finish_blocks-IsView false latest n t v e = v
  finish_blocks-IsView true latest n t v e = nothing-IsView n t v e latest

  remote-IsView :
      (t : Node R) (r : R)
      → ((p : Bytes) (i : ℕ) → content_at r p i ≡ content_at t.remote p i)
      → IsWell t
      → IsView t (record t { remote = r })
  unfolding view IsWell
  remote-IsView t r h well = (refl, well, (λ i. ground (arith, h t.path i)), λ k e. e)

  mtime-IsView :
      (t u : Node R)
      → IsView t u
      → (attr : Option FileAttr)
      → IsView t (changed file now attr (record u { write_mtime = none }))
  unfolding view IsWell changed
  mtime-IsView t u v attr = v

  touched-IsView :
      (request : Request) (t : Node R)
      → request.operation ≡ codes "chtimes"
      → IsWell t
      → Always (IsView t) (call file now request [] t)
  unfolding call
  touched-IsView request t operation well =
      go (file request [] t.remote) (lawful.touches request [] t.remote operation)
    where
      go :
          (o : Outcome R (Response × Bytes))
          → Always (λ s. (p : Bytes) (i : ℕ) → content_at s p i ≡ content_at t.remote p i) o
          → Always (IsView t) (elim o [
            | done (response, _) r ↦ done response (record t { remote = r })
            | failed e r ↦ failed e (record t { remote = r })
          ])
      go (done (response, _) r) h = remote-IsView t r h well
      go (failed x r) h = remote-IsView t r h well

  finish_mtime-IsView : (t : Node R) → IsWell t → Always (IsView t) (finish_mtime file now t)
  unfolding finish_mtime changed view
  finish_mtime-IsView t well = elim (Option-cases t.write_mtime) [
    | inl e ↦ rw (e, finish_mtime) (refl, well, (λ i. refl), λ k h. h)
    | inr (m, e) ↦
        rw (e, finish_mtime)
          (>>=-Always (IsView t) (call file now _ []) _ t (touched-IsView _ t refl well)
            (λ response u k. mtime-IsView t u k response.attr))
  ]

  finish_flush-IsView :
      (any_blocks synced : Bool) (latest : Option FileAttr) (n t : Node R)
      → IsView n t
      → t.write_blocks ≡ []
      → Always (IsView n) (finish_flush file now any_blocks synced latest t)
  unfolding finish_flush
  finish_flush-IsView any_blocks synced latest n t v e =
      >>=-Always (IsView n) (finish_blocks file now any_blocks latest)
        (λ _. finish_mtime file now >> pure synced) t
        (finish_blocks-IsView any_blocks latest n t v e)
        (λ _ u k.
          >>=-Always (IsView n) (finish_mtime file now) (λ _. pure synced) u
            (Always-map (IsView u) (IsView n) (λ w. IsView-trans n u w k) _
              (finish_mtime-IsView u (k.1)))
            (λ _ w l. l))

  -- Whether flushWritesLocked succeeds or fails, on every path, a reader sees the same bytes behind it.
  pub flush_writes_locked-IsView :
      (sync_last : Bool) (n : Node R)
      → IsWell n
      → Always (IsView n) (flush_writes_locked file now sync_last n)
  unfolding flush_writes_locked
  flush_writes_locked-IsView sync_last n well =
      >>=-Always_both (IsView n) (λ _ s. IsLeft file now (sorted_offsets n.write_blocks) n s)
        (IsView n) (flush_blocks file now sync_last (sorted_offsets n.write_blocks) _) _ n
        (flush_blocks-IsView sync_last (sorted_offsets n.write_blocks) _ n well)
        (flush_blocks-IsLeft file now sync_last (sorted_offsets n.write_blocks) _ n) (λ t v. v)
        (λ p t v g. finish_flush-IsView _ _ p.latest n t v (left_none file now n t g))

  pub flush_if-IsView :
      (wanted : Bool) (n : Node R) → IsWell n → Always (IsView n) (flush_if file now wanted n)
  unfolding flush_if
  flush_if-IsView false n well = (refl, well, (λ i. refl), λ k h. h)
  flush_if-IsView true n well =
      >>=-Always (IsView n) (flush_writes_locked file now false) (λ _. pure tt) n
        (flush_writes_locked-IsView false n well) (λ _ s h. h)
