-- ===== src/Agent/WriteBack/View/Write.antt =====
-- A write to a pending block (pkg/agent/filesystem/write_linux.go) as a reader sees it.
use Prim.Native.Nat.{◌-◌}
use colnk.Common.{
  ℕ, ◌+◌, ◌<◌, ◌≤◌, ◌≡◌, refl, ◌⊎◌, inl, inr, Bytes, length, length-replicate, none, some, ◌&&◌,
  nat_beq, nat_beq_iff, if◌then◌else◌, lookup, lookup-insert, insert, nat_eq, arith, ◌∙◌, [],
}
use colnk.Protocol.Types.{max_payload_bytes}
use colnk.Agent.WriteBlock.{PendingWriteBlock, write}
use colnk.Agent.WriteBlock.Ranges.{covered-write, write-IsSeparated}
use colnk.Agent.WriteBlock.Contents.{get_elem?-write, length-write}
use colnk.Agent.WriteBack.{Node, fresh_block}
use colnk.Agent.WriteBack.View.{byte_of, block_of, spans, view, IsBlock, IsWell}

write-IsBlock :
    (offset inside : ℕ) (block : PendingWriteBlock) (chunk : Bytes)
    → IsBlock offset block
    → 0 < length chunk
    → inside + length chunk ≤ max_payload_bytes
    → IsBlock offset (write block inside chunk)
write-IsBlock offset inside block chunk (a, b, c, d) positive fits = (
  a,
  length-write block inside chunk ∙ b,
  write-IsSeparated block inside chunk positive c,
  λ i. ground (arith, d i, covered-write i block inside chunk positive c),
)

-- The block that a write at an offset goes to: a pending one, or a new one where there is none.
abbrev pub IsTarget : {R : Type 0} → Node R → ℕ → PendingWriteBlock → Type 0
IsTarget n key block =
    (lookup key n.write_blocks ≡ some block)
    ⊎ ((lookup key n.write_blocks ≡ none) × (block ≡ fresh_block))

length-fresh_block : length fresh_block.content ≡ max_payload_bytes
unfolding fresh_block
length-fresh_block = length-replicate {0} {A = ℕ} max_payload_bytes 0

fresh_block_clean : fresh_block.dirty ≡ []
unfolding fresh_block
fresh_block_clean = refl

fresh_block-IsBlock : (key : ℕ) → block_of key ≡ key → IsBlock key fresh_block
fresh_block-IsBlock key h = (
  h,
  length-fresh_block,
  rw (fresh_block_clean) tt,
  λ i. rw (fresh_block_clean) λ e. ground arith,
)

module _ {R : Type 0} (content_at : R → Bytes → ℕ → ℕ) (n : Node R) (offset : ℕ)
    (block : PendingWriteBlock) (chunk : Bytes) (target : IsTarget n (block_of offset) block)
    (positive : 0 < length chunk)
    (fits : (offset - block_of offset) + length chunk ≤ max_payload_bytes) where
  abbrev pub written : Node R
  written = record n {
    write_blocks =
        insert (block_of offset) (write block (offset - block_of offset) chunk) n.write_blocks;
  }

  target-IsBlock : IsWell n → IsBlock (block_of offset) block
  unfolding IsWell
  target-IsBlock well = elim target [
    | inl h ↦ well (block_of offset) block h
    | inr (h, e) ↦ rw (e) (fresh_block-IsBlock (block_of offset) (omega arith))
  ]

  pub written-IsWell : IsWell n → IsWell written
  unfolding IsWell
  written-IsWell well key other h = ground (
    arith,
    well key other,
    target-IsBlock well,
    write-IsBlock (block_of offset) (offset - block_of offset) block chunk (target-IsBlock well)
        positive fits,
    lookup-insert (block_of offset) key (write block (offset - block_of offset) chunk)
        n.write_blocks,
    nat_beq_iff (block_of offset) key,
  )

  -- Offsets of the text are those of its place in the block.
  spans-inside :
      (i : ℕ)
      → spans offset (length chunk) i
        ≡ nat_beq (block_of offset) (block_of i)
          && spans (offset - block_of offset) (length chunk) (i - block_of i)
  spans-inside i = ground arith

  pub view-written :
      (i : ℕ)
      → IsWell n
      → view content_at written i ≡ (
          if spans offset (length chunk) i then byte_of chunk (i - offset) else view content_at n i)
  unfolding view
  view-written i well = ground (
    arith,
    spans-inside i,
    lookup-insert (block_of offset) (block_of i) (write block (offset - block_of offset) chunk)
        n.write_blocks,
    nat_beq_iff (block_of offset) (block_of i),
    target-IsBlock well,
    target,
    fresh_block_clean,
    covered-write (i - block_of i) block (offset - block_of offset) chunk positive
        ((target-IsBlock well).2),
    get_elem?-write (i - block_of i) block (offset - block_of offset) chunk
        (omega (arith, target-IsBlock well)),
  )
