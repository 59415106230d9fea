-- ===== src/Tests/WriteBackTests.antt =====
-- Buffered writes at concrete inputs.
use colnk.Common.{
  lookup, ℕ, ◌+◌, ◌≡◌, refl, Bytes, codes, [], ◌∷◌, none, some, false, true, pos, arith, Io, done,
  failed, Always, OnDone, read_failed, if◌then◌else◌, ltb,
}
use colnk.Protocol.Types.{Request, Response}
use colnk.Agent.MetadataCache.{new_metadata_cache}
use colnk.Agent.ReadBlockCache.{new_read_block_cache}
use colnk.Agent.WriteBlock.{PendingWriteBlock}
use colnk.Agent.WriteBack.{Node, buffer_write, buffer_write_loop, flush_writes_locked}
use colnk.Agent.WriteBack.Budget.{IsBudgeted}
use colnk.Agent.WriteBack.Bounded.{IsEmptied, flush_writes_locked-IsEmptied}
use colnk.Agent.WriteBack.Buffered.{buffer_write-IsBudgeted, buffer_write_loop_fuel}

abbrev answer : Response
answer = record {
  error_code = pos 0;
  error = [];
  attr = none;
  more = false;
  data_length = pos 0;
  data_encoding = [];
  raw_data_length = pos 0;
}

-- The other end counts its calls and fails from the third on.
abbrev counting : Request → Bytes → Io ℕ (Response × Bytes)
counting request content calls =
    if ltb calls 2 then done (answer, []) (calls + 1) else failed read_failed calls

abbrev node : Node ℕ
node = record {
  path = codes "a";
  write_blocks = [];
  write_mtime = none;
  budget = 128;
  remote = 0;
  caches = record { metadata = new_metadata_cache 8 10; blocks = new_read_block_cache 8 10 };
}

abbrev pending : PendingWriteBlock
pending = record {
  content = 7 ∷ 8 ∷ 9 ∷ 0 ∷ [];
  dirty = record { start = 0; end = 1 } ∷ record { start = 2; end = 3 } ∷ [];
}

abbrev dirty_node : Node ℕ
dirty_node = record node {
  write_blocks = (0, pending) ∷ [];
  budget = 127;
  write_mtime = some (pos 5);
}

dirty_node-IsBudgeted : IsBudgeted counting 0 128 dirty_node
unfolding lookup
dirty_node-IsBudgeted = ((refl, tt), refl, omega arith)

buffer_write-IsBudgeted_example :
    Always (IsBudgeted counting 0 128) (buffer_write counting 0 5 (codes "abc") dirty_node)
buffer_write-IsBudgeted_example =
    buffer_write-IsBudgeted counting 0 128 5 (codes "abc") dirty_node dirty_node-IsBudgeted

flush_writes_locked-IsEmptied_example :
    OnDone (λ _ s. IsEmptied counting 0 128 s) (flush_writes_locked counting 0 true dirty_node)
flush_writes_locked-IsEmptied_example =
    flush_writes_locked-IsEmptied counting 0 128 true dirty_node dirty_node-IsBudgeted

buffer_write_loop_fuel_example :
    buffer_write_loop counting 0 9 5 (codes "abc") node
    ≡ buffer_write counting 0 5 (codes "abc") node
buffer_write_loop_fuel_example =
    buffer_write_loop_fuel counting 0 9 5 (codes "abc") node (omega arith)
