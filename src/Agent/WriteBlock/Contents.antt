-- ===== src/Agent/WriteBlock/Contents.antt =====
-- The bytes of a block after pendingWriteBlock.write (pkg/agent/filesystem/write_buffer.go).
use colnk.Common.{
  ℕ, zero, suc, ◌+◌, ◌-◌, ◌≤◌, ◌≡◌, refl, ap, ◌&&◌, [], ◌∷◌, Bytes, length, get_elem?, ltb, leb,
  if◌then◌else◌, arith,
}
use colnk.Agent.WriteBlock.{PendingWriteBlock, copy, copy_at, write}

length-copy : (dst src : Bytes) → length (copy dst src) ≡ length dst
unfolding copy
length-copy [] src = refl
length-copy (d ∷ dst) [] = refl
length-copy (d ∷ dst) (s ∷ src) = ap suc (length-copy dst src)

length-copy_at : (n : ℕ) (dst src : Bytes) → length (copy_at n dst src) ≡ length dst
unfolding copy_at
length-copy_at zero dst src = length-copy dst src
length-copy_at (suc n) [] src = refl
length-copy_at (suc n) (d ∷ dst) src = ap suc (length-copy_at n dst src)

-- A write never changes the size of its block.
pub length-write :
    (block : PendingWriteBlock) (start : ℕ) (src : Bytes)
    → length (write block start src).content ≡ length block.content
unfolding write
length-write block start src = length-copy_at start block.content src

get_elem?-copy :
    (i : ℕ) (dst src : Bytes)
    → length src ≤ length dst
    → get_elem? (copy dst src) i ≡ (if ltb i (length src) then get_elem? src i else get_elem? dst i)
unfolding copy
get_elem?-copy i [] [] h = ground arith
get_elem?-copy i [] (s ∷ src) h = absurd (omega arith)
get_elem?-copy i (d ∷ dst) [] h = ground arith
get_elem?-copy zero (d ∷ dst) (s ∷ src) h = ground arith
get_elem?-copy (suc i) (d ∷ dst) (s ∷ src) h = ground (arith, get_elem?-copy i dst src)

get_elem?-copy_at :
    (n i : ℕ) (dst src : Bytes)
    → n + length src ≤ length dst
    → get_elem? (copy_at n dst src) i
      ≡ (if leb n i && ltb i (n + length src) then get_elem? src (i - n) else get_elem? dst i)
unfolding copy_at
get_elem?-copy_at zero i dst src h =
    let e : i - 0 ≡ i = omega arith in rw e (ground (arith, get_elem?-copy i dst src))
get_elem?-copy_at (suc n) i [] src h = absurd (omega arith)
get_elem?-copy_at (suc n) zero (d ∷ dst) src h = ground arith
get_elem?-copy_at (suc n) (suc i) (d ∷ dst) src h =
    let e : suc i - suc n ≡ i - n = omega arith in
    rw e (ground (arith, get_elem?-copy_at n i dst src))

-- Where the data fits, a write puts exactly its bytes at `start` and leaves the others.
pub get_elem?-write :
    (i : ℕ) (block : PendingWriteBlock) (start : ℕ) (src : Bytes)
    → start + length src ≤ length block.content
    → get_elem? (write block start src).content i ≡ (
        if leb start i && ltb i (start + length src)
        then get_elem? src (i - start)
        else get_elem? block.content i)
unfolding write
get_elem?-write i block start src h = get_elem?-copy_at start i block.content src h
