-- ===== src/Tests/FilesTests.antt =====
-- Reads and writes of files at concrete inputs.
use Prim.Native.Nat.{◌-◌}
use colnk.Common.{
  ℕ, refl, Bytes, bytes_beq, codes, [], none, some, true, ◌&&◌, ℤ, pos, negsuc, Result, err,
  read_failed, done, Io, if◌then◌else◌, lookup, nat_eq, Always, OnDone, length, take, drop,
  length-take, length-drop, get_elem?-take, get_elem?-drop, arith,
}
use colnk.Protocol.Types.{Request, Response, max_payload_bytes}
use colnk.Agent.MetadataCache.{new_metadata_cache}
use colnk.Agent.ReadBlockCache.{ReadBlockKey, new_read_block_cache}
use colnk.Agent.WriteBack.{Node, buffer_write, flush_writes_locked}
use colnk.Agent.WriteBack.View.{byte_of, spans, IsFile, IsWell}
use colnk.Agent.WriteBack.View.Flush.{IsView, flush_writes_locked-IsView}
use colnk.Agent.WriteBack.View.Buffer.{IsWritten, buffer_write-IsWritten}
use colnk.Agent.Nodes.{RemoteFs, new_node}
use colnk.Agent.Files.{RemoteCalls}
use colnk.Agent.Files.Contents.{read}
use colnk.Agent.Files.Blocks.{IsPiece, IsReadable, IsCoherent}
use colnk.Agent.Files.Reads.{read-IsPiece}
use colnk.Provider.FileService.{plain_response}

-- Files as functions from offsets to bytes.
abbrev Disk : Type 0
Disk = Bytes → ℕ → ℕ

abbrev disk_at : Disk → Bytes → ℕ → ℕ
disk_at disk = disk

abbrev offset_of : ℤ → ℕ
offset_of (pos n) = n
offset_of (negsuc n) = 0

abbrev put_bytes : Bytes → ℕ → Bytes → Disk → Disk
put_bytes path offset content disk p i =
    if bytes_beq path p && spans offset (length content) i
    then byte_of content (i - offset)
    else disk p i

abbrev serve_disk : Request → Bytes → Io Disk (Response × Bytes)
serve_disk request content disk =
    done (plain_response none, [])
      (if bytes_beq request.operation (codes "write")
        then put_bytes request.path (offset_of request.offset) content disk
        else disk)

serve_disk-IsFile : IsFile disk_at serve_disk
serve_disk-IsFile = record {
  writes = λ request offset content r operation place. rw (operation, place) (λ p i. refl);
  touches = λ request content r operation. rw (operation) (λ p i. refl);
}

abbrev node : Node Disk
node = record {
  path = codes "a";
  write_blocks = [];
  write_mtime = some (pos 5);
  budget = 1;
  remote = λ p i. i;
  caches = record { metadata = new_metadata_cache 8 10; blocks = new_read_block_cache 8 10 };
}

node-IsWell : IsWell node
unfolding IsWell lookup
node-IsWell = λ offset block h. cc

buffer_write-IsWritten_example :
    OnDone
      (λ _ t. IsWritten disk_at serve_disk 0 serve_disk-IsFile 5 (codes "abc") node t)
      (buffer_write serve_disk 0 5 (codes "abc") node)
buffer_write-IsWritten_example =
    buffer_write-IsWritten disk_at serve_disk 0 serve_disk-IsFile 5 (codes "abc") node node-IsWell

flush_writes_locked-IsView_example :
    Always
      (IsView disk_at serve_disk 0 serve_disk-IsFile node)
      (flush_writes_locked serve_disk 0 true node)
flush_writes_locked-IsView_example =
    flush_writes_locked-IsView disk_at serve_disk 0 serve_disk-IsFile true node node-IsWell

-- The other end has one file.
abbrev text : Bytes
text = codes "hello"

abbrev calls : RemoteCalls (Unit {0})
calls = record {
  file = λ request content s.
      done (plain_response none, take max_payload_bytes (drop (offset_of request.offset) text)) s;
  read_dir = λ path s. done [] s;
}

abbrev text_at : Unit {0} → Bytes → ℕ → ℕ
text_at _ _ i = byte_of text i

abbrev text_size : Unit {0} → Bytes → ℕ
text_size _ _ = length text

abbrev joined : ReadBlockKey → Result Bytes
joined _ = err read_failed

text-IsPiece :
    (count offset : ℕ) (content : Bytes)
    → IsPiece (byte_of content) (length content) offset count (take count (drop offset content))
text-IsPiece count offset content =
    let a = length-take count (drop offset content) in
    let b = length-drop offset content in
    (
      omega (arith, a, b),
      λ i h. ground (
        arith,
        a,
        b,
        get_elem?-take count i (drop offset content),
        get_elem?-drop offset i content,
      ),
    )

calls-IsReadable : IsReadable calls joined 0 text_at text_size
calls-IsReadable request offset r operation place size =
    rw (place) (((λ p i. refl), λ p. refl), text-IsPiece max_payload_bytes offset text)

abbrev fs : RemoteFs (Unit {0})
fs = record {
  nodes = [];
  objects = λ _. new_node (codes "a");
  created = 1;
  budget = 128;
  remote = tt;
  caches = record { metadata = new_metadata_cache 8 10; blocks = new_read_block_cache 8 10 };
  mountpoint = codes "/mnt";
}

fs-IsCoherent : IsCoherent calls joined 0 text_at text_size tt fs
unfolding lookup
fs-IsCoherent = (((λ p i. refl), λ p. refl), (λ key entry h. cc), refl)

read-IsPiece_example :
    OnDone
      (λ content t.
        IsCoherent calls joined 0 text_at text_size tt t
        × IsPiece (text_at tt (codes "a")) (text_size tt (codes "a")) 1 3 content)
      (read calls joined 0 0 1 3 fs)
read-IsPiece_example =
    read-IsPiece calls joined 0 text_at text_size 0 1 3 fs calls-IsReadable (refl, refl)
      fs-IsCoherent
