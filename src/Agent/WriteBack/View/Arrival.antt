-- ===== src/Agent/WriteBack/View/Arrival.antt =====
-- The calls of flushWritesLocked for one block (pkg/agent/filesystem/write_linux.go) and the bytes that arrive.
use Prim.Native.Nat.{◌-◌}
use colnk.Common.{
  ℕ, ◌+◌, ◌<◌, ◌≡◌, refl, inl, inr, Bytes, bytes_beq, bytes_beq_iff, codes, length, length-take,
  length-drop, get_elem?-take, get_elem?-drop, drop, List, [], ◌∷◌, Bool, true, false, ◌&&◌,
  nat_beq, nat_eq, arith, Option-cases, Bool-cases, ap, ◌∙◌, Ends, done, failed, Io, ℤ, pos, Option,
  Outcome, >>=-Ends, Ends-map,
}
use colnk.Protocol.Types.{Request, Response, max_payload_bytes}
use colnk.Agent.WriteBlock.{WriteRange, PendingWriteBlock}
use colnk.Agent.WriteBlock.Ranges.{covered, in_range}
use colnk.Agent.WriteBack.{Node, Progress, slice, range_request, call, flush_range, flush_ranges}
use colnk.Agent.WriteBack.View.{byte_of, block_of, spans, IsBlock, IsFile, Wrote, WrotePartly}

range_request_lem :
    (path : Bytes) (offset remaining : ℕ) (sync_last : Bool) (mtime : Option ℤ)
    → let request = range_request path offset remaining sync_last mtime in
      (request.operation ≡ codes "write") × (request.offset ≡ pos offset) × (request.path ≡ path)
unfolding range_request
range_request_lem path offset remaining sync_last mtime = elim (Bool-cases (nat_beq remaining 0)) [
  | inr e ↦ rw (e, range_request) (refl, refl, refl)
  | inl e ↦ elim (Option-cases mtime) [
    | inl g ↦ rw (e, g, range_request) (refl, refl, refl)
    | inr (t, g) ↦ rw (e, g, range_request) (refl, refl, refl)
  ]
]

-- The bytes of a range of the content.
byte_of-slice :
    (r : WriteRange) (content : Bytes) (i : ℕ)
    → in_range i r ≡ true
    → byte_of (slice r content) (i - r.start) ≡ byte_of content i
byte_of-slice r content i h = ground (
  arith,
  get_elem?-take (r.end - r.start) (i - r.start) (drop r.start content),
  get_elem?-drop r.start (i - r.start) content,
)

module _ {R : Type 0} (content_at : R → Bytes → ℕ → ℕ)
    (file : Request → Bytes → Io R (Response × Bytes)) (now : ℕ)
    (lawful : IsFile content_at file) where
  -- What `call` does is what the other end does.
  pub call-writes :
      (request : Request) (offset : ℕ) (content : Bytes) (n : Node R)
      → request.operation ≡ codes "write"
      → request.offset ≡ pos offset
      → Ends
          (λ _ t.
            (t ≡ record n { remote = t.remote })
            × Wrote content_at request.path offset content n.remote t.remote)
          (λ t.
            (t ≡ record n { remote = t.remote })
            × WrotePartly content_at request.path offset content n.remote t.remote)
          (call file now request content n)
  unfolding call
  call-writes request offset content n e g =
      go (file request content n.remote) (lawful.writes request offset content n.remote e g)
    where
      go :
          (o : Outcome R (Response × Bytes))
          → Ends
              (λ _ s. Wrote content_at request.path offset content n.remote s)
              (WrotePartly content_at request.path offset content n.remote)
              o
          → Ends
              (λ _ t.
                (t ≡ record n { remote = t.remote })
                × Wrote content_at request.path offset content n.remote t.remote)
              (λ t.
                (t ≡ record n { remote = t.remote })
                × WrotePartly content_at request.path offset content n.remote t.remote)
              (elim o [
                | done (response, _) r ↦ done response (record n { remote = r })
                | failed e r ↦ failed e (record n { remote = r })
              ])
      go (done (response, _) r) h = (refl, h)
      go (failed x r) h = (refl, h)

-- A range within a block.
abbrev Fits : ℕ → WriteRange → Type 0
Fits size r = (i : ℕ) → in_range i r ≡ true → i < size

length-slice :
    (r : WriteRange) (content : Bytes)
    → Fits (length content) r
    → length (slice r content) ≡ r.end - r.start
length-slice r content fits = ground (
  arith,
  fits (r.end - 1),
  length-take (r.end - r.start) (drop r.start content),
  length-drop r.start content,
)

spans-range :
    (key i : ℕ) (r : WriteRange)
    → block_of key ≡ key
    → Fits max_payload_bytes r
    → spans (key + r.start) (r.end - r.start) i ≡ nat_beq (block_of i) key && in_range (i - key) r
spans-range key i r h fits = ground (arith, fits (r.end - 1))

module _ {R : Type 0} (content_at : R → Bytes → ℕ → ℕ)
    (file : Request → Bytes → Io R (Response × Bytes)) (now : ℕ) (lawful : IsFile content_at file)
    (n : Node R) (key : ℕ) (block : PendingWriteBlock) (whole : IsBlock key block) where
  -- The offsets of the file at which the block has a dirty byte.
  abbrev dirty_at : ℕ → Bool
  dirty_at i = nat_beq (block_of i) key && covered (i - key) block.dirty

  -- The node as it was, and the file as it was but for the dirty bytes.
  abbrev pub IsStopped : Node R → Type 0
  IsStopped t =
      (t.path ≡ n.path)
      × (t.write_blocks ≡ n.write_blocks)
      × ((i : ℕ) → dirty_at i ≡ false → content_at t.remote n.path i ≡ content_at n.remote n.path i)

  -- And the dirty bytes that no range of `rest` covers have arrived.
  abbrev pub IsArrived : List WriteRange → Node R → Type 0
  IsArrived rest t =
      IsStopped t
      × ((i : ℕ)
          → dirty_at i ≡ true
          → covered (i - key) rest ≡ false
          → content_at t.remote n.path i ≡ byte_of block.content (i - key))

  write_range-IsArrived :
      (request : Request) (r : WriteRange) (rest : List WriteRange) (t : Node R)
      → request.operation ≡ codes "write"
      → request.offset ≡ pos (key + r.start)
      → request.path ≡ t.path
      → ((i : ℕ) → in_range i r ≡ true → covered i block.dirty ≡ true)
      → IsArrived (r ∷ rest) t
      → Ends (λ _ s. IsArrived rest s) IsStopped (call file now request (slice r block.content) t)
  write_range-IsArrived request r rest t operation offset path inside ((a, b, c), d) =
      let piece = slice r block.content in
      let fits : Fits (length block.content) r =
        λ i h. ground (arith, inside i, whole, whole.3 i) in
      let size : length piece ≡ r.end - r.start = length-slice r block.content fits in
      let place =
        λ (i : ℕ). spans-range key i r whole.0 (λ j h. ground (arith, inside j, whole.3 j)) in
      let here : bytes_beq request.path n.path ≡ true =
        (bytes_beq_iff request.path n.path).1 (path ∙ a) in
      Ends-map
        (λ _ s.
          (s ≡ record t { remote = s.remote })
          × Wrote content_at request.path (key + r.start) piece t.remote s.remote)
        (λ _ s. IsArrived rest s)
        (λ s.
          (s ≡ record t { remote = s.remote })
          × WrotePartly content_at request.path (key + r.start) piece t.remote s.remote)
        IsStopped
        (λ _ s (e, w). (
          (
            ap (λ m. m.path) e ∙ a,
            ap (λ m. m.write_blocks) e ∙ b,
            λ i h. ground (arith, w n.path i, here, size, place i, inside (i - key), c i),
          ),
          λ i h k. ground (
            arith,
            w n.path i,
            here,
            size,
            place i,
            inside (i - key),
            d i,
            byte_of-slice r block.content (i - key),
          ),
        ))
        (λ s (e, w). (
          ap (λ m. m.path) e ∙ a,
          ap (λ m. m.write_blocks) e ∙ b,
          λ i h. ground (arith, w n.path i, here, size, place i, inside (i - key), c i),
        ))
        _ (call-writes content_at file now lawful request (key + r.start) piece t operation offset)

  flush_range-IsArrived :
      (sync_last : Bool) (r : WriteRange) (rest : List WriteRange) (p : Progress) (t : Node R)
      → ((i : ℕ) → in_range i r ≡ true → covered i block.dirty ≡ true)
      → IsArrived (r ∷ rest) t
      → Ends
          (λ _ s. IsArrived rest s)
          IsStopped
          (flush_range file now sync_last key block.content r p t)
  unfolding flush_range
  flush_range-IsArrived sync_last r rest p t inside arrived =
      let (a, b, c) =
        range_request_lem t.path (key + r.start) (p.remaining - 1) sync_last t.write_mtime in
      >>=-Ends (λ _ s. IsArrived rest s) (λ _ s. IsArrived rest s) IsStopped
        (call file now _ (slice r block.content)) _ t
        (write_range-IsArrived _ r rest t a b c inside arrived) (λ _ s h. h)

  pub flush_ranges-IsArrived :
      (sync_last : Bool) (ranges : List WriteRange) (p : Progress) (t : Node R)
      → ((i : ℕ) → covered i ranges ≡ true → covered i block.dirty ≡ true)
      → IsArrived ranges t
      → Ends
          (λ _ s. IsArrived [] s)
          IsStopped
          (flush_ranges file now sync_last key block.content ranges p t)
  unfolding flush_ranges
  flush_ranges-IsArrived sync_last [] p t inside arrived = arrived
  flush_ranges-IsArrived sync_last (r ∷ rest) p t inside arrived =
      >>=-Ends (λ _ s. IsArrived rest s) (λ _ s. IsArrived [] s) IsStopped
        (flush_range file now sync_last key block.content r p) _ t
        (flush_range-IsArrived sync_last r rest p t (λ i h. inside i (ground arith)) arrived)
        (λ q s h. flush_ranges-IsArrived sync_last rest q s (λ i k. inside i (ground arith)) h)
