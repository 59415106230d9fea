-- ===== src/Agent/WriteBlock/Ranges.antt =====
-- The loop of pendingWriteBlock.write (pkg/agent/filesystem/write_buffer.go) over the dirty ranges, against
-- a recursive insertion.
use colnk.Common.{
  ℕ, ◌+◌, ◌≤◌, ◌<◌, ◌≡◌, refl, Bool, true, false, ◌&&◌, ◌||◌, List, [], ◌∷◌, ◌++◌, ltb, leb,
  if◌then◌else◌, arith, append_assoc, append-nil, length, Bytes,
}
use colnk.Agent.WriteBlock.{
  WriteRange, PendingWriteBlock, join, with_merged, merge_step, merge_loop, merge_dirty, write,
  Above, IsSeparated,
}

-- Insertion of a range by recursion: ranges below it stay, those that touch it are absorbed.
unfoldable pub insert_range : WriteRange → List WriteRange → List WriteRange
insert_range r [] = r ∷ []
insert_range r (c ∷ cs) =
    if ltb c.end r.start
    then c ∷ insert_range r cs
    else if ltb r.end c.start
    then r ∷ c ∷ cs
    else insert_range (join r c) cs

Above-mono : {m n : ℕ} (rs : List WriteRange) → m ≤ n → Above n rs → Above m rs
Above-mono [] h a = tt
Above-mono (r ∷ rs) h a = (omega arith, a.1, a.2)

-- Once the merged range is placed, the ranges above it are appended as they are.
merge_loop_placed :
    (r : WriteRange) (out rs : List WriteRange)
    → r.start < r.end
    → Above r.end rs
    → with_merged (merge_loop (record { merged = r; ranges = out; inserted = true }) rs) ≡ out ++ rs
unfolding merge_loop merge_step
merge_loop_placed r out [] h a = ground (arith, append-nil out)
merge_loop_placed r out (c ∷ cs) h a = ground (
  arith,
  merge_loop_placed r (out ++ c ∷ []) cs h,
  Above-mono {m = r.end} {n = c.end} cs,
  append_assoc out (c ∷ []) cs,
)

Above-IsSeparated : (n : ℕ) (rs : List WriteRange) → Above n rs → IsSeparated rs
Above-IsSeparated n [] a = tt
Above-IsSeparated n (r ∷ rs) a = (a.1, a.2)

merge_loop-insert_range :
    (r : WriteRange) (out rs : List WriteRange)
    → r.start < r.end
    → IsSeparated rs
    → with_merged (merge_loop (record { merged = r; ranges = out; inserted = false }) rs)
      ≡ out ++ insert_range r rs
unfolding merge_loop merge_step insert_range
merge_loop-insert_range r out [] h a = refl
merge_loop-insert_range r out (c ∷ cs) h a = ground (
  arith,
  Above-IsSeparated c.end cs a.1,
  merge_loop-insert_range r (out ++ c ∷ []) cs h,
  merge_loop-insert_range (join r c) out cs,
  merge_loop_placed r ((out ++ r ∷ []) ++ c ∷ []) cs h,
  Above-mono {m = r.end} {n = c.end} cs,
  append_assoc out (c ∷ []) (insert_range r cs),
  append_assoc out (r ∷ []) (c ∷ []),
  append_assoc out (r ∷ c ∷ []) cs,
)

-- The loop of `write` computes the recursive insertion.
pub merge_dirty-insert_range :
    (r : WriteRange) (rs : List WriteRange)
    → r.start < r.end
    → IsSeparated rs
    → merge_dirty r rs ≡ insert_range r rs
unfolding merge_dirty
merge_dirty-insert_range r rs h a = merge_loop-insert_range r [] rs h a

insert_range-Above :
    (n : ℕ) (r : WriteRange) (rs : List WriteRange)
    → n < r.start
    → r.start < r.end
    → Above n rs
    → Above n (insert_range r rs)
unfolding insert_range
insert_range-Above n r [] g h a = (g, h, tt)
insert_range-Above n r (c ∷ cs) g h a = ground (
  arith,
  insert_range-Above c.end r cs,
  insert_range-Above n (join r c) cs,
  Above-mono {m = n} {n = c.end} cs,
)

insert_range-IsSeparated :
    (r : WriteRange) (rs : List WriteRange)
    → r.start < r.end
    → IsSeparated rs
    → IsSeparated (insert_range r rs)
unfolding insert_range
insert_range-IsSeparated r [] h a = (h, tt)
insert_range-IsSeparated r (c ∷ cs) h a = ground (
  arith,
  insert_range-Above c.end r cs,
  insert_range-IsSeparated (join r c) cs,
  Above-IsSeparated c.end cs a.1,
)

-- A write keeps the dirty ranges of its block non-empty, in order and apart from each other.
pub write-IsSeparated :
    (block : PendingWriteBlock) (start : ℕ) (src : Bytes)
    → 0 < length src
    → IsSeparated block.dirty
    → IsSeparated (write block start src).dirty
unfolding write
write-IsSeparated block start src h a =
    let r : WriteRange = record { start = start; end = start + length src } in
    let lt : start < start + length src = omega arith in
    rw (merge_dirty-insert_range r block.dirty lt a) (insert_range-IsSeparated r block.dirty lt a)

abbrev pub in_range : ℕ → WriteRange → Bool
in_range i r = leb r.start i && ltb i r.end

abbrev pub covered : ℕ → List WriteRange → Bool
covered i [] = false
covered i (r ∷ rs) = in_range i r || covered i rs

covered-insert_range :
    (i : ℕ) (r : WriteRange) (rs : List WriteRange)
    → r.start < r.end
    → IsSeparated rs
    → covered i (insert_range r rs) ≡ in_range i r || covered i rs
unfolding insert_range
covered-insert_range i r [] h a = refl
covered-insert_range i r (c ∷ cs) h a = ground (
  arith,
  covered-insert_range i r cs,
  covered-insert_range i (join r c) cs,
  Above-IsSeparated c.end cs a.1,
)

-- After a write the dirty ranges cover what they covered before and the range that was written,
-- and nothing else.
pub covered-write :
    (i : ℕ) (block : PendingWriteBlock) (start : ℕ) (src : Bytes)
    → 0 < length src
    → IsSeparated block.dirty
    → covered i (write block start src).dirty
      ≡ (leb start i && ltb i (start + length src)) || covered i block.dirty
unfolding write
covered-write i block start src h a =
    let r : WriteRange = record { start = start; end = start + length src } in
    let lt : start < start + length src = omega arith in
    rw (merge_dirty-insert_range r block.dirty lt a) (covered-insert_range i r block.dirty lt a)
