-- ===== src/Agent/Files/Contents.antt =====
-- pkg/agent/filesystem/nodes_linux.go: Read, Write, Fsync, Flush and Release of a node.
use Prim.Native.Nat.{◌-◌, ◌*◌, ◌/◌}
use colnk.Common.{
  ℕ, zero, suc, ◌+◌, min, Bytes, codes, length, take, drop, [], ◌++◌, ltb, leb, if◌then◌else◌, pos,
  Result, ok, err, done, failed, Io, ◌>>=◌, ◌>>◌, pure, lift,
}
use colnk.Protocol.Types.{max_payload_bytes}
use colnk.Agent.Changes.{invalidate_change}
use colnk.Agent.ReadBlockCache.{ReadBlockKey, load_begin, load_end, hit, join, lead}
use colnk.Agent.WriteBack.{request_for, flush_pending, flush_pending_sync, buffer_write}
use colnk.Agent.Nodes.{RemoteFs, on_node}
use colnk.Agent.Attributes.{or_fuse, fuse_outcome}
use colnk.Agent.Files.{RemoteCalls, on_caches, path_of, fs_call}

-- `joined` is what a caller of `load` gets that waits for the flight of another.
module _ {R : Type 0} (calls : RemoteCalls R) (joined : ReadBlockKey → Result Bytes) (now : ℕ) where
  -- The loader of Read: one block of the file.
  unfoldable pub read_block : ReadBlockKey → Io (RemoteFs R) Bytes
  unfolding fs_call
  read_block key = do
    answer ←
        fs_call calls now
          (record (request_for (codes "read") key.path (pos key.offset)) {
            size = pos max_payload_bytes;
          })
          []
    pure (answer.1)

  -- `load` from the start of the flight on.
  unfoldable pub fly : ReadBlockKey → ℕ → Io (RemoteFs R) Bytes
  unfolding read_block load_end
  fly key generation fs = elim (read_block key fs) [
    | done content fs' ↦ done content (record fs' {
      caches = record fs'.caches {
        blocks = load_end key generation (ok content) now fs'.caches.blocks;
      };
    })
    | failed e fs' ↦ failed e (record fs' {
      caches = record fs'.caches { blocks = load_end key generation (err e) now fs'.caches.blocks };
    })
  ]

  unfoldable pub load : ReadBlockKey → Io (RemoteFs R) Bytes
  unfolding load_begin fly
  load key fs =
      let (blocks', begin) = load_begin key now fs.caches.blocks in
      let fs' = record fs { caches = record fs.caches { blocks = blocks' } } in
      elim begin [
        | hit content ↦ done content fs'
        | join ↦ lift (joined key) fs'
        | lead generation ↦ fly key generation fs'
      ]

  -- The body of the loop of Read from the loaded block on; `again` is the next round.
  unfoldable pub next_block :
      (Bytes → ℕ → ℕ → Bytes → Io (RemoteFs R) Bytes)
      → Bytes
      → ℕ
      → ℕ
      → Bytes
      → ℕ
      → Bytes
      → Io (RemoteFs R) Bytes
  next_block again path offset remaining acc inside content =
      let count = min remaining (length content - inside) in
      let acc' = acc ++ take count (drop inside content) in
      if leb (length content) inside
      then pure acc
      else if ltb (length content) max_payload_bytes
      then pure acc'
      else again path (offset + count) (remaining - count) acc'

  -- The loop of Read, with fuel; `acc` is response.Data.
  unfoldable pub read_loop : ℕ → Bytes → ℕ → ℕ → Bytes → Io (RemoteFs R) Bytes
  unfolding load next_block
  read_loop zero path offset remaining acc = pure acc
  read_loop (suc fuel) path offset zero acc = pure acc
  read_loop (suc fuel) path offset (suc less) acc =
      let remaining = suc less in
      let block_offset = offset / max_payload_bytes * max_payload_bytes in
      let inside = offset - block_offset in
      do
        content ← load (record { path = path; offset = block_offset })
        next_block (read_loop fuel) path offset remaining acc inside content

  -- One round for each byte is enough, since a round that is not the last takes at least one.
  unfoldable pub read : ℕ → ℕ → ℕ → Io (RemoteFs R) Bytes
  unfolding on_node flush_pending read_loop fuse_outcome
  read id offset size = do
    or_fuse (on_node id (flush_pending calls.file now))
    path ← path_of id
    or_fuse (read_loop size path offset size [])

  -- Write: the number of bytes that were taken.
  unfoldable pub write_node : ℕ → ℕ → Bytes → Io (RemoteFs R) ℕ
  unfolding on_caches invalidate_change on_node buffer_write fuse_outcome
  write_node id offset content = do
    path ← path_of id
    on_caches (invalidate_change path)
    or_fuse (on_node id (buffer_write calls.file now offset content))
    pure (length content)

  -- Fsync where the node had nothing to write.
  unfoldable pub fsync_remote : ℕ → Io (RemoteFs R) (Unit {0})
  unfolding fs_call fuse_outcome
  fsync_remote id = do
    path ← path_of id
    _ ← or_fuse (fs_call calls now (request_for (codes "fsync") path (pos 0)) [])
    pure tt

  unfoldable pub fsync : ℕ → Io (RemoteFs R) (Unit {0})
  unfolding on_node flush_pending_sync fuse_outcome fsync_remote
  fsync id = do
    synced ← or_fuse (on_node id (flush_pending_sync calls.file now))
    (if synced then pure tt else fsync_remote id)

  -- Flush, and Release as well.
  unfoldable pub flush : ℕ → Io (RemoteFs R) (Unit {0})
  unfolding on_node flush_pending fuse_outcome
  flush id = or_fuse (on_node id (flush_pending calls.file now))
