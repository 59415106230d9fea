-- ===== src/Agent/WriteBlock.antt =====
-- pkg/agent/filesystem/write_buffer.go: one block of buffered writes and its dirty ranges. Bytes and
-- offsets are numbers. `copy` is Go's: it stops at the end of the shorter side.
pub mod Ranges
pub mod Contents
use colnk.Common.{
  ℕ, zero, suc, ◌+◌, ◌<◌, min, max, Bool, true, false, List, [], ◌∷◌, ◌++◌, foldl, Bytes, length,
  ltb, if◌then◌else◌,
}

pub record WriteRange : Type 0 where
  pub start : ℕ
  pub end : ℕ

pub record PendingWriteBlock : Type 0 where
  pub content : Bytes
  pub dirty : List WriteRange

-- `copy(dst, src)`
unfoldable pub copy : Bytes → Bytes → Bytes
copy [] src = []
copy (d ∷ dst) [] = d ∷ dst
copy (d ∷ dst) (s ∷ src) = s ∷ copy dst src

-- `copy(dst[start:], src)`. Callers keep `start` within `dst`; beyond it the slice would panic.
unfoldable pub copy_at : ℕ → Bytes → Bytes → Bytes
unfolding copy
copy_at zero dst src = copy dst src
copy_at (suc n) [] src = []
copy_at (suc n) (d ∷ dst) src = d ∷ copy_at n dst src

-- The variables of the loop over `block.dirty`.
pub record MergeState : Type 0 where
  pub merged : WriteRange
  pub ranges : List WriteRange
  pub inserted : Bool

-- `if !inserted { ranges = append(ranges, merged) }`
abbrev pub with_merged : MergeState → List WriteRange
with_merged s = if s.inserted then s.ranges else s.ranges ++ s.merged ∷ []

abbrev pub join : WriteRange → WriteRange → WriteRange
join a b = record { start = min a.start b.start; end = max a.end b.end }

-- The body of the loop: one case of the switch.
unfoldable pub merge_step : MergeState → WriteRange → MergeState
merge_step s current =
    if ltb current.end s.merged.start
    then record s { ranges = s.ranges ++ current ∷ [] }
    else if ltb s.merged.end current.start
    then record s { ranges = with_merged s ++ current ∷ []; inserted = true }
    else record s { merged = join s.merged current }

unfoldable pub merge_loop : MergeState → List WriteRange → MergeState
unfolding merge_step
merge_loop s [] = s
merge_loop s (current ∷ rest) = merge_loop (merge_step s current) rest

unfoldable pub merge_dirty : WriteRange → List WriteRange → List WriteRange
unfolding merge_loop
merge_dirty r dirty =
    with_merged (merge_loop (record { merged = r; ranges = []; inserted = false }) dirty)

unfoldable pub write : PendingWriteBlock → ℕ → Bytes → PendingWriteBlock
unfolding merge_dirty copy_at
write block start src = record {
  content = copy_at start block.content src;
  dirty = merge_dirty (record { start = start; end = start + length src }) block.dirty;
}

-- The ranges of a block are non-empty, in order, and no two of them touch.
abbrev pub Above : ℕ → List WriteRange → Type 0
Above n [] = Unit {0}
Above n (r ∷ rs) = (n < r.start) × (r.start < r.end) × Above r.end rs

abbrev pub IsSeparated : List WriteRange → Type 0
IsSeparated [] = Unit {0}
IsSeparated (r ∷ rs) = (r.start < r.end) × Above r.end rs
