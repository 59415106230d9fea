-- ===== src/Agent/Files/Reads.antt =====
-- Read of a node (pkg/agent/filesystem/nodes_linux.go) and the bytes of the file.
use mathlib.Core.Path.{subst}
use Prim.Native.Nat.{◌-◌}
use colnk.Common.{
  ℕ, zero, suc, ◌+◌, ◌<◌, ◌≤◌, ◌≡◌, refl, min, inl, inr, Bytes, length, length-append, length-take,
  length-drop, take, drop, [], ◌++◌, none, ltb, leb, arith, Bool-cases, nat_beq_iff, OnDone, done,
  failed, Io, Outcome, Result, >>=-OnDone_chain,
}
use colnk.Protocol.Types.{Request, Response, max_payload_bytes}
use colnk.Agent.WriteBack.View.{block_of}
use colnk.Agent.ReadBlockCache.{ReadBlockKey}
use colnk.Agent.Nodes.{RemoteFs, remote_path, on_node, focus, unfocus}
use colnk.Agent.WriteBack.{
  Node, flush_pending, flush_if, flush_writes_locked, flush_blocks, finish_flush, finish_blocks,
  finish_mtime, sorted_offsets, operation_count,
}
use colnk.Agent.Attributes.{fuse_outcome, or_fuse}
use colnk.Agent.Files.{RemoteCalls}
use colnk.Agent.Files.Contents.{load, read_loop, next_block, read}
use colnk.Agent.Files.Blocks.{
  IsPiece, append-IsPiece, IsReadable, IsBlockOf, IsCoherent, load-IsCoherent,
}

module _ {R : Type 0} (calls : RemoteCalls R) (joined : ReadBlockKey → Result Bytes) (now : ℕ)
    (content_at : R → Bytes → ℕ → ℕ) (size_at : R → Bytes → ℕ)
    (readable : IsReadable calls joined now content_at size_at) (r : R) where
  -- What the loop of Read has so far: the bytes from the start up to the offset, all of them in the file.
  abbrev IsRead : Bytes → ℕ → ℕ → Bytes → Type 0
  IsRead path start offset acc =
      (start + length acc ≡ offset)
      × (length acc ≤ size_at r path - start)
      × IsPiece (content_at r path) (size_at r path) start (length acc) acc

  -- What a round does with its block, where the next round does what it is to do.
  next_block-IsPiece :
      (again : Bytes → ℕ → ℕ → Bytes → Io (RemoteFs R) Bytes) (path : Bytes)
      (start offset remaining : ℕ) (acc content : Bytes) (fs : RemoteFs R)
      → ((offset' remaining' : ℕ) (acc' : Bytes)
          → remaining' < remaining
          → IsRead path start offset' acc'
          → OnDone
              (λ all t.
                IsCoherent calls joined now content_at size_at r t
                × IsPiece (content_at r path) (size_at r path) start (length acc' + remaining') all)
              (again path offset' remaining' acc' fs))
      → 0 < remaining
      → IsCoherent calls joined now content_at size_at r fs
      → IsRead path start offset acc
      → IsBlockOf calls joined now content_at size_at r
          (record { path = path; offset = block_of offset })
          content
      → OnDone
          (λ all t.
            IsCoherent calls joined now content_at size_at r t
            × IsPiece (content_at r path) (size_at r path) start (length acc + remaining) all)
          (next_block calls joined now again path offset remaining acc
            (offset - block_of offset)
            content
            fs)
  unfolding next_block
  next_block-IsPiece again path start offset remaining acc content fs next positive coherent
        (a, b, c) e =
      let at = content_at r path in
      let size = size_at r path in
      let inside = offset - block_of offset in
      elim (Bool-cases (leb (length content) inside)) [
        | inl short ↦ rw (short, next_block) (coherent, (ground (arith, e, c), c.1))
        | inr long ↦
            let count = min remaining (length content - inside) in
            let acc' = acc ++ take count (drop inside content) in
            let more =
              append-IsPiece at size start offset count remaining acc content a b c e (ground arith)
                refl in
            let n : length acc' ≡ length acc + count = ground (
              arith,
              length-append acc (take count (drop inside content)),
              length-take count (drop inside content),
              length-drop inside content,
            ) in
            elim (Bool-cases (ltb (length content) max_payload_bytes)) [
              | inl last ↦ rw (long, last, next_block) (coherent, (ground (arith, e, n), more.1))
              | inr full ↦
                  rw (long, full, next_block)
                    (let total : length acc' + (remaining - count) ≡ length acc + remaining =
                        omega arith in
                      subst
                        (λ m.
                          OnDone
                            (λ all t.
                              IsCoherent calls joined now content_at size_at r t
                              × IsPiece at size start m all)
                            (again path (offset + count) (remaining - count) acc' fs))
                        total
                        (next (offset + count) (remaining - count) acc' (ground arith)
                          (omega arith, ground (arith, e), (omega (arith, n, more), more.1))))
            ]
      ]

  read_loop-IsPiece :
      (fuel : ℕ) (path : Bytes) (start offset remaining : ℕ) (acc : Bytes) (fs : RemoteFs R)
      → remaining ≤ fuel
      → IsCoherent calls joined now content_at size_at r fs
      → IsRead path start offset acc
      → OnDone
          (λ content fs'.
            IsCoherent calls joined now content_at size_at r fs'
            × IsPiece (content_at r path) (size_at r path) start (length acc + remaining) content)
          (read_loop calls joined now fuel path offset remaining acc fs)
  unfolding read_loop
  read_loop-IsPiece zero path start offset zero acc fs h coherent (a, b, c) =
      (coherent, (omega (arith, c), c.1))
  read_loop-IsPiece zero path start offset (suc less) acc fs h coherent read = absurd (omega arith)
  read_loop-IsPiece (suc fuel) path start offset zero acc fs h coherent (a, b, c) =
      (coherent, (omega (arith, c), c.1))
  read_loop-IsPiece (suc fuel) path start offset (suc less) acc fs h coherent (a, b, c) =
      >>=-OnDone_chain
        (λ content fs'.
          IsCoherent calls joined now content_at size_at r fs'
          × IsBlockOf calls joined now content_at size_at r
              (record { path = path; offset = block_of offset }) content)
        _ (load calls joined now (record { path = path; offset = block_of offset })) _ fs
        (load-IsCoherent calls joined now content_at size_at readable r _ fs coherent)
        (λ content fs' (d, e).
          next_block-IsPiece (read_loop calls joined now fuel) path start offset (suc less) acc
            content fs'
            (λ offset' remaining' acc' lt read.
              read_loop-IsPiece fuel path start offset' remaining' acc' fs' (omega arith) d read)
            (omega arith) d (a, b, c) e)

-- A node with nothing to send.
abbrev pub IsClean : {R : Type 0} → ℕ → RemoteFs R → Type 0
IsClean id fs = ((fs.objects id).write_blocks ≡ []) × ((fs.objects id).write_mtime ≡ none)

flush_pending_clean :
    {R : Type 0} (file : Request → Bytes → Io R (Response × Bytes)) (now : ℕ) (n : Node R)
    → n.write_blocks ≡ []
    → n.write_mtime ≡ none
    → flush_pending file now n ≡ done tt n
unfolding flush_pending flush_if flush_writes_locked flush_blocks finish_flush finish_blocks
    finish_mtime sorted_offsets operation_count
flush_pending_clean file now n e f = subst (λ m. flush_pending file now m ≡ done tt m) same refl
  where
    same : record n { write_blocks = []; write_mtime = none } ≡ n
    same = rw (← e, ← f) refl

fuse_outcome-OnDone :
    {S A : Type 0} (P : A → S → Type 0) (o : Outcome S A) → OnDone P o → OnDone P (fuse_outcome o)
unfolding fuse_outcome
fuse_outcome-OnDone P (done a s) h = h
fuse_outcome-OnDone P (failed e s) h = tt

flushed_clean :
    {R : Type 0} (file : Request → Bytes → Io R (Response × Bytes)) (now id : ℕ) (fs : RemoteFs R)
    → IsClean id fs
    → on_node id (flush_pending file now) fs ≡ done tt (unfocus id (focus id fs) fs)
unfolding on_node
flushed_clean file now id fs (clean, quiet) =
    rw (on_node, flush_pending_clean file now (focus id fs) clean quiet) refl

module _ {R : Type 0} (calls : RemoteCalls R) (joined : ReadBlockKey → Result Bytes) (now : ℕ)
    (content_at : R → Bytes → ℕ → ℕ) (size_at : R → Bytes → ℕ) where
  -- Read of a node with nothing to send, while the cache agrees with the files: where it succeeds, it returns
  -- the bytes that the file has from the offset on, as many as are asked for or as there are, and the cache
  -- still agrees with the files.
  pub read-IsPiece :
      (id offset count : ℕ) (fs : RemoteFs R)
      → IsReadable calls joined now content_at size_at
      → IsClean id fs
      → IsCoherent calls joined now content_at size_at fs.remote fs
      → OnDone
          (λ content t.
            IsCoherent calls joined now content_at size_at fs.remote t
            × IsPiece
                (content_at fs.remote (remote_path id fs))
                (size_at fs.remote (remote_path id fs))
                offset
                count
                content)
          (read calls joined now id offset count fs)
  unfolding read on_node fuse_outcome
  read-IsPiece id offset count fs readable (clean, quiet) coherent =
      let path = remote_path id fs in
      let C = IsCoherent calls joined now content_at size_at fs.remote in
      let total : 0 + count ≡ count = omega arith in
      let same : remote_path id (unfocus id (focus id fs) fs) ≡ path =
        ground (arith, nat_beq_iff id id) in
      >>=-OnDone_chain (λ _ t. C t × (remote_path id t ≡ path)) _
        (or_fuse (on_node id (flush_pending calls.file now))) _ fs
        (rw (flushed_clean calls.file now id fs (clean, quiet), fuse_outcome) (coherent, same))
        (λ _ t (c, e). rw (e) (
          fuse_outcome-OnDone _ (read_loop calls joined now count path offset count [] t) (
            subst
              (λ m.
                OnDone
                  (λ content u.
                    C u
                    × IsPiece (content_at fs.remote path) (size_at fs.remote path) offset m content)
                  (read_loop calls joined now count path offset count [] t))
              total
              (read_loop-IsPiece calls joined now content_at size_at readable fs.remote count path
                offset offset count [] t (omega arith) c
                (omega arith, omega arith, (omega arith, λ i h. absurd (omega arith)))))))
