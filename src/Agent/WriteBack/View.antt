-- ===== src/Agent/WriteBack/View.antt =====
-- What a reader of a file sees while writes are pending (pkg/agent/filesystem/write_linux.go): the bytes at
-- the other end, with the dirty bytes of the blocks over them.
pub mod Write
pub mod Arrival
pub mod Flush
pub mod Buffer
use Prim.Native.Nat.{◌-◌, ◌/◌, ◌*◌}
use colnk.Common.{
  Bool, ℕ, ◌+◌, ◌<◌, ◌≤◌, ◌≡◌, Bool, refl, ◌⊎◌, Bytes, bytes_beq, codes, length, get_elem?, List,
  Option, none, some, true, false, ◌&&◌, ltb, leb, if◌then◌else◌, Map, lookup, nat_eq, ℤ, pos, Io,
  Always, Ends,
}
use colnk.Protocol.Types.{Request, Response, max_payload_bytes}
use colnk.Agent.WriteBlock.{WriteRange, PendingWriteBlock, IsSeparated}
use colnk.Agent.WriteBlock.Ranges.{covered}
use colnk.Agent.WriteBack.{Node}

-- A byte of a text, 0 behind its end.
abbrev pub byte_of : Bytes → ℕ → ℕ
byte_of content i = elim (get_elem? content i) [ none ↦ 0 | some b ↦ b ]

-- The offset of the block that an offset lies in.
abbrev pub block_of : ℕ → ℕ
block_of i = i / max_payload_bytes * max_payload_bytes

-- A test for the offsets of a text that stands at an offset.
abbrev pub spans : ℕ → ℕ → ℕ → Bool
spans offset size i = leb offset i && ltb i (offset + size)

module _ {R : Type 0} (content_at : R → Bytes → ℕ → ℕ) where
  -- The other end has the bytes of a text in a file at an offset, and all else as before.
  abbrev pub Wrote : Bytes → ℕ → Bytes → R → R → Type 0
  Wrote path offset content r s =
      (p : Bytes) (i : ℕ)
      → content_at s p i ≡ (
          if bytes_beq path p && spans offset (length content) i
          then byte_of content (i - offset)
          else content_at r p i)

  -- As before, but for some of the bytes of the text.
  abbrev pub WrotePartly : Bytes → ℕ → Bytes → R → R → Type 0
  WrotePartly path offset content r s =
      (p : Bytes) (i : ℕ)
      → (content_at s p i ≡ content_at r p i)
        ⊎ ((bytes_beq path p && spans offset (length content) i ≡ true)
            × (content_at s p i ≡ byte_of content (i - offset)))

  -- The other end does what it is asked for: a write puts its bytes, or some of them where it fails, and a
  -- change of the modification time leaves the bytes alone.
  pub record IsFile (file : Request → Bytes → Io R (Response × Bytes)) : Type 0 where
    pub writes :
        (request : Request) (offset : ℕ) (content : Bytes) (r : R)
        → request.operation ≡ codes "write"
        → request.offset ≡ pos offset
        → Ends
            (λ _ s. Wrote request.path offset content r s)
            (WrotePartly request.path offset content r)
            (file request content r)
    pub touches :
        (request : Request) (content : Bytes) (r : R)
        → request.operation ≡ codes "chtimes"
        → Always
            (λ s. (p : Bytes) (i : ℕ) → content_at s p i ≡ content_at r p i)
            (file request content r)

  -- A byte of the file as the node knows it.
  unfoldable pub view : Node R → ℕ → ℕ
  unfolding lookup
  view n i = elim (lookup (block_of i) n.write_blocks) [
    | none ↦ content_at n.remote n.path i
    | some block ↦
        if covered (i - block_of i) block.dirty
        then byte_of block.content (i - block_of i)
        else content_at n.remote n.path i
  ]

-- A block is as long as a payload, and its ranges are separated and lie within it.
abbrev pub IsBlock : ℕ → PendingWriteBlock → Type 0
IsBlock offset block =
    (block_of offset ≡ offset)
    × (length block.content ≡ max_payload_bytes)
    × IsSeparated block.dirty
    × ((i : ℕ) → covered i block.dirty ≡ true → i < max_payload_bytes)

unfoldable pub IsWell : {R : Type 0} → Node R → Type 0
unfolding lookup
IsWell n =
    (offset : ℕ) (block : PendingWriteBlock)
    → lookup offset n.write_blocks ≡ some block
    → IsBlock offset block
