-- ===== src/Agent/Attributes/Pending.antt =====
-- pendingAttr of pkg/agent/filesystem/nodes_linux.go.
use colnk.Common.{ℕ, ◌+◌, ◌%◌, ◌^◌, ◌≤◌, ◌↔◌, List, [], ◌∷◌, Map, All, arith}
use colnk.Agent.WriteBlock.{WriteRange, PendingWriteBlock}
use colnk.Agent.Attributes.{grow_ranges, grow}
use Prim.Native.Nat.{max}

abbrev Covers : ℕ → ℕ → WriteRange → Type 0
Covers n offset dirty = (offset + dirty.end) % 2 ^ 64 ≤ n

-- Every range of a block at an offset ends within the size.
abbrev pub CoversAll : ℕ → ℕ × PendingWriteBlock → Type 0
CoversAll n (offset, block) = All (Covers n offset) block.dirty

grow_ranges-le :
    (offset : ℕ) (ranges : List WriteRange) (size n : ℕ)
    → (grow_ranges offset ranges size ≤ n) ↔ ((size ≤ n) × All (Covers n offset) ranges)
unfolding grow_ranges
grow_ranges-le offset [] size n = ground arith
grow_ranges-le offset (dirty ∷ rest) size n =
    let ih = grow_ranges-le offset rest (max size ((offset + dirty.end) % 2 ^ 64)) n in
    (
      (λ h. let (a, b) = ih.0 h in (omega arith, (omega arith, b))),
      λ (a, (b, c)). ih.1 (omega arith, c),
    )

-- The size that pendingAttr reports is the least that covers the file and every range.
pub grow-le :
    (blocks : Map ℕ PendingWriteBlock) (size n : ℕ)
    → (grow blocks size ≤ n) ↔ ((size ≤ n) × All (CoversAll n) blocks)
unfolding grow
grow-le [] size n = ground arith
grow-le ((offset, block) ∷ rest) size n =
    let ih = grow-le rest (grow_ranges offset block.dirty size) n in
    let here = grow_ranges-le offset block.dirty size n in
    (
      (λ h. let (a, b) = ih.0 h in let (c, d) = here.0 a in (c, (d, b))),
      λ (a, (b, c)). ih.1 (here.1 (a, b), c),
    )
