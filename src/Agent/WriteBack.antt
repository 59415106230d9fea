-- ===== src/Agent/WriteBack.antt =====
-- pkg/agent/filesystem/write_linux.go: writes are collected in blocks and sent later. A call holds the
-- lock of its node throughout, so each is one operation on the state of the node. The other end is a
-- parameter with a state of its own, and so is the reading of the clock; offsets are not negative.
pub mod Budget
pub mod Bounded
pub mod Buffered
pub mod View
use Prim.Native.Nat.{◌-◌, ◌/◌, ◌*◌}
use colnk.Common.{
  ℕ, zero, suc, ◌+◌, min, Bytes, codes, length, take, drop, replicate, List, [], ◌∷◌, ◌++◌, Option,
  none, some, Bool, true, false, not, ◌&&◌, ◌||◌, ltb, leb, nat_beq, if◌then◌else◌, nat_eq, Map,
  lookup, insert, delete, ℤ, pos, max_ℤ, Outcome, done, failed, Io, ◌>>=◌, ◌>>◌, pure,
}
use Prim.Native.Nat.{max}
use colnk.Protocol.Types.{FileAttr, Request, Response, max_payload_bytes}
use colnk.Agent.WriteBlock.{WriteRange, PendingWriteBlock, write}
use colnk.Agent.Changes.{Caches, update_changed_attr}

-- maxPendingWriteBlocks
abbrev pub max_pending_write_blocks : ℕ
max_pending_write_blocks = 8

-- A node with what it shares: `budget` is what is left of writeBudget, `remote` the state of the other
-- end, `caches` those of the file system.
pub record Node (R : Type 0) : Type 0 where
  pub path : Bytes
  pub write_blocks : Map ℕ PendingWriteBlock
  pub write_mtime : Option ℤ
  pub budget : ℕ
  pub remote : R
  pub caches : Caches

-- A request with the zero values of Go in all fields but these.
abbrev pub request_for : Bytes → Bytes → ℤ → Request
request_for operation path offset = record {
  kind = [];
  operation = operation;
  path = path;
  new_path = [];
  target = [];
  offset = offset;
  size = pos 0;
  mode = 0;
  mod_time_ns = pos 0;
  set_mod_time = false;
  sync = false;
  data_length = pos 0;
  data_encoding = [];
  raw_data_length = pos 0;
}

-- `remaining` and `latest`, the variables of the loops in flushWritesLocked.
pub record Progress : Type 0 where
  pub remaining : ℕ
  pub latest : Option FileAttr

-- `latest` after a response.
unfoldable pub merge_latest : Option FileAttr → Option FileAttr → Option FileAttr
merge_latest latest none = latest
merge_latest none (some attr) = some attr
merge_latest (some latest) (some attr) = some (record latest {
  size = max latest.size attr.size;
  mod_time_ns = max_ℤ latest.mod_time_ns attr.mod_time_ns;
})

-- The last write carries the modification time and the wish for a sync.
unfoldable pub range_request : Bytes → ℕ → ℕ → Bool → Option ℤ → Request
range_request path offset remaining sync_last mtime =
    let plain = request_for (codes "write") path (pos offset) in
    if nat_beq remaining 0
    then elim mtime [
      | none ↦ record plain { sync = sync_last }
      | some t ↦ record plain { sync = sync_last; set_mod_time = true; mod_time_ns = t }
    ]
    else plain

-- `block.data[start:end]`
abbrev pub slice : WriteRange → Bytes → Bytes
slice r content = take (r.end - r.start) (drop r.start content)

-- sort.Slice on the offsets.
unfoldable pub insert_sorted : ℕ → List ℕ → List ℕ
insert_sorted n [] = n ∷ []
insert_sorted n (m ∷ ms) = let rest = insert_sorted n ms in if leb n m then n ∷ m ∷ ms else m ∷ rest

unfoldable pub sorted_offsets : Map ℕ PendingWriteBlock → List ℕ
unfolding insert_sorted
sorted_offsets [] = []
sorted_offsets ((offset, _) ∷ blocks) = insert_sorted offset (sorted_offsets blocks)

unfoldable pub operation_count : Map ℕ PendingWriteBlock → ℕ
operation_count [] = 0
operation_count ((_, block) ∷ blocks) = length block.dirty + operation_count blocks

-- `make([]byte, protocol.MaxPayloadBytes)`
unfoldable pub fresh_block : PendingWriteBlock
fresh_block = record { content = replicate max_payload_bytes 0; dirty = [] }

-- How many bytes of the rest lie within the block of the offset.
abbrev pub chunk_size : ℕ → ℕ → ℕ
chunk_size offset rest =
    min rest (max_payload_bytes - (offset - offset / max_payload_bytes * max_payload_bytes))

-- `file` is Remote.File: the response and its payload, or an error.
module _ {R : Type 0} (file : Request → Bytes → Io R (Response × Bytes)) (now : ℕ) where
  unfoldable pub call : Request → Bytes → Io (Node R) Response
  call request content n = elim (file request content n.remote) [
    | done (response, _) r ↦ done response (record n { remote = r })
    | failed e r ↦ failed e (record n { remote = r })
  ]

  unfoldable pub flush_range : Bool → ℕ → Bytes → WriteRange → Progress → Io (Node R) Progress
  unfolding call range_request merge_latest
  flush_range sync_last offset content dirty p n =
      let remaining = p.remaining - 1 in
      (do
        response ←
            call (range_request n.path (offset + dirty.start) remaining sync_last n.write_mtime)
              (slice dirty content)
        pure (record { remaining = remaining; latest = merge_latest p.latest response.attr }))
        n

  unfoldable pub flush_ranges : Bool → ℕ → Bytes → List WriteRange → Progress → Io (Node R) Progress
  unfolding flush_range
  flush_ranges sync_last offset content [] p = pure p
  flush_ranges sync_last offset content (dirty ∷ rest) p = do
    q ← flush_range sync_last offset content dirty p
    flush_ranges sync_last offset content rest q

  -- `delete(n.writeBlocks, offset)` and the release of its unit.
  unfoldable pub drop_block : ℕ → Io (Node R) (Unit {0})
  unfolding delete
  drop_block offset n =
      done tt (record n { write_blocks = delete offset n.write_blocks; budget = n.budget + 1 })

  unfoldable pub flush_blocks : Bool → List ℕ → Progress → Io (Node R) Progress
  unfolding lookup flush_ranges drop_block
  flush_blocks sync_last [] p n = done p n
  flush_blocks sync_last (offset ∷ offsets) p n = elim (lookup offset n.write_blocks) [
    | none ↦ flush_blocks sync_last offsets p n
    | some block ↦
        (do
          q ← flush_ranges sync_last offset block.content block.dirty p
          drop_block offset
          flush_blocks sync_last offsets q)
          n
  ]

  unfoldable pub changed : Option FileAttr → Node R → Node R
  unfolding update_changed_attr
  changed attr n = record n { caches = update_changed_attr n.path attr now n.caches }

  -- `if len(offsets) > 0 { … }`
  unfoldable pub finish_blocks : Bool → Option FileAttr → Io (Node R) (Unit {0})
  unfolding changed
  finish_blocks false latest n = done tt n
  finish_blocks true latest n =
      done tt (changed latest (record n { write_blocks = []; write_mtime = none }))

  -- `if n.writeMtime != nil { … }`
  unfoldable pub finish_mtime : Io (Node R) (Unit {0})
  unfolding call changed
  finish_mtime n = elim n.write_mtime [
    | none ↦ done tt n
    | some t ↦
        (do
          response ←
              call (record (request_for (codes "chtimes") n.path (pos 0)) { mod_time_ns = t }) []
          (λ m. done tt (changed response.attr (record m { write_mtime = none }))))
          n
  ]

  -- Behind the loop over the blocks.
  unfoldable pub finish_flush : Bool → Bool → Option FileAttr → Io (Node R) Bool
  unfolding finish_blocks finish_mtime
  finish_flush any_blocks synced latest = do
    finish_blocks any_blocks latest
    finish_mtime
    pure synced

  unfoldable pub flush_writes_locked : Bool → Io (Node R) Bool
  unfolding sorted_offsets operation_count flush_blocks finish_flush
  flush_writes_locked sync_last n =
      let offsets = sorted_offsets n.write_blocks in
      let count = operation_count n.write_blocks in
      (do
        p ← flush_blocks sync_last offsets (record { remaining = count; latest = none })
        finish_flush (ltb 0 (length offsets)) (sync_last && ltb 0 count) p.latest)
        n

  -- `semaphore.TryAcquire(1)`
  unfoldable pub try_acquire : Io (Node R) Bool
  try_acquire n =
      if ltb 0 n.budget then done true (record n { budget = n.budget - 1 }) else done false n

  unfoldable pub flush_if : Bool → Io (Node R) (Unit {0})
  unfolding flush_writes_locked
  flush_if false n = done tt n
  flush_if true n = (flush_writes_locked false >>= λ _. pure tt) n

  -- The unit for a new block: with eight blocks, or without a unit left, the node sends its blocks first.
  unfoldable pub acquire_block : Io (Node R) Bool
  unfolding flush_if try_acquire
  acquire_block n =
      (do
        flush_if (leb max_pending_write_blocks (length n.write_blocks))
        acquired ← try_acquire
        (λ m.
            if acquired
            then done true m
            else (flush_if (ltb 0 (length m.write_blocks)) >> try_acquire) m))
        n

  unfoldable pub write_through : ℕ → Bytes → Io (Node R) (Unit {0})
  unfolding call changed
  write_through offset chunk n =
      (do
        response ← call (request_for (codes "write") n.path (pos offset)) chunk
        (λ m. done tt (changed response.attr m)))
        n

  -- `block.write(inside, …)` on the block at an offset.
  unfoldable pub write_block : ℕ → ℕ → PendingWriteBlock → Bytes → Io (Node R) (Unit {0})
  unfolding insert write
  write_block block_offset inside block chunk n =
      done tt
        (record n { write_blocks = insert block_offset (write block inside chunk) n.write_blocks })

  -- The body of the loop of bufferWrite, on the bytes that lie within one block.
  unfoldable pub write_chunk : ℕ → Bytes → Io (Node R) (Unit {0})
  unfolding lookup acquire_block write_through fresh_block write_block
  write_chunk offset chunk n =
      let block_offset = offset / max_payload_bytes * max_payload_bytes in
      let inside = offset - block_offset in
      elim (lookup block_offset n.write_blocks) [
        | some block ↦ write_block block_offset inside block chunk n
        | none ↦
            (do
              acquired ← acquire_block
              (if acquired
                  then write_block block_offset inside fresh_block chunk
                  else write_through offset chunk))
              n
      ]

  -- The loop of bufferWrite, with fuel.
  unfoldable pub buffer_write_loop : ℕ → ℕ → Bytes → Io (Node R) (Unit {0})
  unfolding write_chunk
  buffer_write_loop zero offset content = pure tt
  buffer_write_loop (suc fuel) offset [] = pure tt
  buffer_write_loop (suc fuel) offset (b ∷ content) =
      let count = chunk_size offset (length (b ∷ content)) in
      do
        write_chunk offset (take count (b ∷ content))
        buffer_write_loop fuel (offset + count) (drop count (b ∷ content))

  -- One round for each byte is enough, since each round takes at least one.
  unfoldable pub buffer_write : ℕ → Bytes → Io (Node R) (Unit {0})
  unfolding buffer_write_loop
  buffer_write offset content = buffer_write_loop (length content) offset content

  unfoldable pub flush_pending : Io (Node R) (Unit {0})
  flush_pending = flush_if true

  unfoldable pub flush_pending_sync : Io (Node R) Bool
  flush_pending_sync = flush_writes_locked true

unfoldable pub defer_mtime : {R : Type 0} → ℤ → Node R → Node R × Bool
defer_mtime value n =
    if nat_beq (length n.write_blocks) 0
    then (n, false)
    else (record n { write_mtime = some value }, true)
