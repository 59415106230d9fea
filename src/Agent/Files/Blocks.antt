-- ===== src/Agent/Files/Blocks.antt =====
-- The blocks of a file that Read loads (pkg/agent/filesystem/nodes_linux.go), and pieces of a file.
use Prim.Native.Nat.{◌-◌}
use colnk.Common.{
  ℕ, zero, suc, ◌+◌, ◌<◌, ◌≤◌, ◌≡◌, refl, min, inl, inr, Bytes, codes, length, length-append,
  length-take, length-drop, get_elem?-take, get_elem?-drop, take, drop, [], ◌∷◌, ◌++◌, ltb,
  if◌then◌else◌, arith, Bool-cases, ap, ◌∙◌, OnDone, done, failed, pos, Outcome, Result, err, lift,
  >>=-OnDone_chain, ok,
}
use colnk.Protocol.Types.{Request, Response, max_payload_bytes}
use colnk.Agent.WriteBack.View.{byte_of, block_of}
use colnk.Agent.ReadBlockCache.{
  ReadBlockKey, ReadBlockCache, Begin, hit, join, lead, load_begin, load_end,
}
use colnk.Agent.ReadBlockCache.Held.{
  Holds, IsBegun, load_begin-IsBegun, load_end-Holds, load_end-flights,
}
use colnk.Agent.Nodes.{RemoteFs}
use colnk.Agent.Files.{RemoteCalls, fs_call}
use colnk.Agent.Files.Contents.{read_block, fly, load}

-- The text is what a file holds from an offset on, at most so many bytes of it.
abbrev pub IsPiece : (ℕ → ℕ) → ℕ → ℕ → ℕ → Bytes → Type 0
IsPiece at size offset count content =
    (length content ≡ min count (size - offset))
    × ((i : ℕ) → i < length content → byte_of content i ≡ at (offset + i))

byte_of-append :
    (a b : Bytes) (i : ℕ)
    → byte_of (a ++ b) i ≡ (if ltb i (length a) then byte_of a i else byte_of b (i - length a))
byte_of-append [] b i = let e : i - 0 ≡ i = omega arith in rw (e) (ground arith)
byte_of-append (x ∷ a) b zero = ground arith
byte_of-append (x ∷ a) b (suc i) = ground (arith, byte_of-append a b i)

-- A piece behind a piece.
pub append-IsPiece :
    (at : ℕ → ℕ) (size start offset count rest : ℕ) (acc content : Bytes)
    → start + length acc ≡ offset
    → length acc ≤ size - start
    → IsPiece at size start (length acc) acc
    → IsPiece at size (block_of offset) max_payload_bytes content
    → offset - block_of offset < length content
    → count ≡ min rest (length content - (offset - block_of offset))
    → IsPiece at size start
        (length acc + count)
        (acc ++ take count (drop (offset - block_of offset) content))
append-IsPiece at size start offset count rest acc content e room (a, b) (c, d) inside f =
    let tail = take count (drop (offset - block_of offset) content) in
    let n = length-append acc tail in
    let t = length-take count (drop (offset - block_of offset) content) in
    let u = length-drop (offset - block_of offset) content in
    let inside_block = offset - block_of offset in
    (
      omega (arith, n, t, u, c),
      λ i h. elim (Bool-cases (ltb i (length acc))) [
        | inl early ↦ ground (arith, byte_of-append acc tail i, b i)
        | inr late ↦
            let place : block_of offset + (inside_block + (i - length acc)) ≡ start + i =
              ground arith in
            let source : byte_of content (inside_block + (i - length acc)) ≡ at (start + i) =
              d (inside_block + (i - length acc)) (ground (arith, n, t, u)) ∙ ap at place in
            ground (
              arith,
              byte_of-append acc tail i,
              source,
              n,
              t,
              u,
              get_elem?-take count (i - length acc) (drop inside_block content),
              get_elem?-drop inside_block (i - length acc) content,
            )
      ],
    )

module _ {R : Type 0} (calls : RemoteCalls R) (joined : ReadBlockKey → Result Bytes) (now : ℕ)
    (content_at : R → Bytes → ℕ → ℕ) (size_at : R → Bytes → ℕ) where
  -- The files are those of another state.
  abbrev pub SameFiles : R → R → Type 0
  SameFiles r s =
      ((p : Bytes) (i : ℕ) → content_at s p i ≡ content_at r p i)
      × ((p : Bytes) → size_at s p ≡ size_at r p)

  -- The other end answers the request for a block with the bytes of the block that the file has.
  abbrev pub IsReadable : Type 0
  IsReadable =
      (request : Request) (offset : ℕ) (r : R)
      → request.operation ≡ codes "read"
      → request.offset ≡ pos offset
      → request.size ≡ pos max_payload_bytes
      → OnDone
          (λ answer s.
            SameFiles r s
            × IsPiece (content_at r request.path) (size_at r request.path) offset max_payload_bytes
                answer.1)
          (calls.file request [] r)

  -- The blocks in the cache are those of the files in `r`, and no load is under way.
  abbrev pub IsBlockOf : R → ReadBlockKey → Bytes → Type 0
  IsBlockOf r key content =
      IsPiece (content_at r key.path) (size_at r key.path) key.offset max_payload_bytes content

  abbrev pub IsCoherent : R → RemoteFs R → Type 0
  IsCoherent r fs =
      SameFiles r fs.remote × Holds (IsBlockOf r) fs.caches.blocks × (fs.caches.blocks.flights ≡ [])

  SameFiles-trans : (r s t : R) → SameFiles r s → SameFiles s t → SameFiles r t
  SameFiles-trans r s t (a, b) (c, d) = ((λ p i. c p i ∙ a p i), λ p. d p ∙ b p)

  same-IsBlockOf :
      (r s : R) (key : ReadBlockKey) (content : Bytes)
      → SameFiles r s
      → IsBlockOf s key content
      → IsBlockOf r key content
  same-IsBlockOf r s key content (a, b) (c, d) =
      (rw (← b key.path) c, λ i h. d i h ∙ a key.path (key.offset + i))

  module _ (readable : IsReadable) (r : R) where
    answered :
        (key : ReadBlockKey) (fs : RemoteFs R) (o : Outcome R (Response × Bytes))
        → OnDone (λ answer s. SameFiles fs.remote s × IsBlockOf fs.remote key answer.1) o
        → OnDone
            (λ answer fs'.
              (fs' ≡ record fs { remote = fs'.remote })
              × SameFiles fs.remote fs'.remote
              × IsBlockOf fs.remote key answer.1)
            (elim o [
              | done answer s ↦ done answer (record fs { remote = s })
              | failed e s ↦ failed e (record fs { remote = s })
            ])
    answered key fs (done answer s) (a, b) = (refl, a, b)
    answered key fs (failed e s) h = tt

    read_block-IsBlockOf :
        (key : ReadBlockKey) (fs : RemoteFs R)
        → OnDone
            (λ content fs'.
              (fs' ≡ record fs { remote = fs'.remote })
              × SameFiles fs.remote fs'.remote
              × IsBlockOf fs.remote key content)
            (read_block calls joined now key fs)
    unfolding read_block fs_call
    read_block-IsBlockOf key fs =
        >>=-OnDone_chain
          (λ answer fs'.
            (fs' ≡ record fs { remote = fs'.remote })
            × SameFiles fs.remote fs'.remote
            × IsBlockOf fs.remote key answer.1)
          (λ content fs'.
            (fs' ≡ record fs { remote = fs'.remote })
            × SameFiles fs.remote fs'.remote
            × IsBlockOf fs.remote key content)
          (fs_call calls now _ []) _ fs
          (answered key fs (calls.file _ [] fs.remote)
            (readable _ key.offset fs.remote refl refl refl))
          (λ answer s h. h)

    landed :
        (key : ReadBlockKey) (generation : ℕ) (fs : RemoteFs R) (o : Outcome (RemoteFs R) Bytes)
        → SameFiles r fs.remote
        → Holds (IsBlockOf r) fs.caches.blocks
        → fs.caches.blocks.flights ≡ (key, tt) ∷ []
        → OnDone
            (λ content fs'.
              (fs' ≡ record fs { remote = fs'.remote })
              × SameFiles fs.remote fs'.remote
              × IsBlockOf fs.remote key content)
            o
        → OnDone
            (λ content fs'. IsCoherent r fs' × IsBlockOf r key content)
            (elim o [
              | done content fs' ↦ done content (record fs' {
                caches = record fs'.caches {
                  blocks = load_end key generation (ok content) now fs'.caches.blocks;
                };
              })
              | failed e fs' ↦ failed e (record fs' {
                caches = record fs'.caches {
                  blocks = load_end key generation (err e) now fs'.caches.blocks;
                };
              })
            ])
    landed key generation fs (failed e fs') same holds one h = tt
    landed key generation fs (done content fs') same holds one (e, f, g) =
        let caches : fs'.caches ≡ fs.caches = ap (λ m. m.caches) e in
        let piece = same-IsBlockOf r fs.remote key content same g in
        (
          (
            SameFiles-trans r fs.remote fs'.remote same f,
            load_end-Holds (IsBlockOf r) key generation content now fs'.caches.blocks
                (rw (caches) holds) piece,
            load_end-flights key generation content now fs'.caches.blocks (rw (caches) one),
          ),
          piece,
        )

    begun :
        (key : ReadBlockKey) (fs : RemoteFs R) (blocks : ReadBlockCache) (begin : Begin)
        → SameFiles r fs.remote
        → IsBegun (IsBlockOf r) key (blocks, begin)
        → let fs' = record fs { caches = record fs.caches { blocks = blocks } } in
          OnDone
            (λ content t. IsCoherent r t × IsBlockOf r key content)
            (elim begin [
              | hit content ↦ done content fs'
              | join ↦ lift (joined key) fs'
              | lead generation ↦ fly calls joined now key generation fs'
            ])
    unfolding fly
    begun key fs blocks (hit content) same (a, b, c) = ((same, a, c), b)
    begun key fs blocks join same h = absurd h
    begun key fs blocks (lead generation) same (a, b) =
        landed key generation _ (read_block calls joined now key _) same a b
          (read_block-IsBlockOf key _)

    pub load-IsCoherent :
        (key : ReadBlockKey) (fs : RemoteFs R)
        → IsCoherent r fs
        → OnDone
            (λ content fs'. IsCoherent r fs' × IsBlockOf r key content)
            (load calls joined now key fs)
    unfolding load
    load-IsCoherent key fs (same, holds, idle) =
        begun key fs (load_begin key now fs.caches.blocks).0 (load_begin key now fs.caches.blocks).1
          same (load_begin-IsBegun (IsBlockOf r) key now fs.caches.blocks holds idle)
