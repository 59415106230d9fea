-- ===== src/Tests/AgentTests.antt =====
-- pkg/agent/filesystem at concrete inputs.
use colnk.Common.{
  ◌-◌, ◌≡◌, refl, inl, codes, replicate, get_elem?, [], ◌∷◌, none, some, false, ok, pos, arith,
  ◌&&◌, ◌||◌, ltb, leb, if◌then◌else◌, lookup, insert, bytes_eq, All,
}
use colnk.Protocol.Types.{FileAttr}
use colnk.Agent.WriteBlock.{PendingWriteBlock, write, IsSeparated}
use colnk.Agent.WriteBlock.Ranges.{write-IsSeparated, covered-write, covered}
use colnk.Agent.WriteBlock.Contents.{get_elem?-write}
use colnk.Agent.MetadataCache.{
  MetadataCache, new_metadata_cache, get_locked, parent_and_name, entry_at, path_prefix,
}
use colnk.Agent.MetadataCache.Operations.{
  get_attr, put_attr, put_dir, is_missing, get_link, get_dir, at_or_below, from_parent,
}
use colnk.Agent.MetadataCache.Operations
use colnk.Agent.MetadataCache.Recent.{IsValid}
use colnk.Agent.MetadataCache.Coherence.{IsFiled, get_attr-put_attr}
use colnk.Agent.MetadataCache.Listings.{get_dir-put_dir_empty}
use colnk.Agent.MetadataCache.Invalidation.{lookups-invalidate}
use colnk.Agent.ReadBlockCache
use colnk.Agent.ReadBlockCache.{
  ReadBlockCache, ReadBlockKey, new_read_block_cache, key_eq, load_begin, load_end, begin_flight,
  generation_of, join, lead,
}
use colnk.Agent.ReadBlockCache.Freshness.{here, NoWrap, load_end-stale, load_begin-joins-stale}

abbrev block : PendingWriteBlock
block = record {
  content = replicate 8 0;
  dirty = record { start = 0; end = 2 } ∷ record { start = 4; end = 5 } ∷ [];
}

-- The new range touches both, so all three become one.
write_joins : write block 2 (7 ∷ 8 ∷ []) ≡ record {
  content = 0 ∷ 0 ∷ 7 ∷ 8 ∷ 0 ∷ 0 ∷ 0 ∷ 0 ∷ [];
  dirty = record { start = 0; end = 5 } ∷ [];
}
unfolding write
write_joins = refl

write-IsSeparated_example : IsSeparated (write block 2 (7 ∷ 8 ∷ [])).dirty
write-IsSeparated_example = write-IsSeparated block 2 (7 ∷ 8 ∷ []) (omega arith) (omega arith)

covered-write_example :
    covered 3 (write block 2 (7 ∷ 8 ∷ [])).dirty ≡ (leb 2 3 && ltb 3 4) || covered 3 block.dirty
covered-write_example = covered-write 3 block 2 (7 ∷ 8 ∷ []) (omega arith) (omega arith)

get_elem?-write_example :
    get_elem? (write block 2 (7 ∷ 8 ∷ [])).content 3
    ≡ (if leb 2 3 && ltb 3 4 then get_elem? (7 ∷ 8 ∷ []) (3 - 2) else get_elem? block.content 3)
get_elem?-write_example = get_elem?-write 3 block 2 (7 ∷ 8 ∷ []) (omega arith)

abbrev attr : FileAttr
attr = record { mode = 420; size = 3; mod_time_ns = pos 5; inode = 1; uid = 0; gid = 0 }

abbrev cache : MetadataCache
cache = new_metadata_cache 2 10

cache-IsValid : IsValid cache
cache-IsValid = record { distinct = tt; numbered = tt }

get_attr-put_attr_example :
    (get_attr (codes "a/f") 12 13 (put_attr (codes "a/f") (some attr) 5 cache)).1 ≡ some attr
get_attr-put_attr_example =
    get_attr-put_attr (codes "a/f") attr 5 12 13 cache (omega arith) (omega arith) cache-IsValid
      (omega arith)

abbrev stocked : MetadataCache
stocked = record cache {
  entries =
      (
        codes "attr:a/f",
        record (entry_at (codes "a/f")) { attr = some attr; expires = 15; sequence = 1 },
      )
      ∷ [];
  sequence = 1;
}

stocked-IsValid : IsValid stocked
unfolding lookup
stocked-IsValid = record { distinct = (refl, tt); numbered = (((λ e. cc), omega arith), tt) }

stocked-IsFiled : All IsFiled stocked.entries
stocked-IsFiled = (inl refl, tt)

served : (get_attr (codes "a/f") 15 16 stocked).1 ≡ some attr
unfolding get_attr get_locked lookup
served = refl

lookups-invalidate_example :
    (get_attr (codes "a/f") 15 16 (Operations.invalidate (codes "a") stocked)
      ≡ (Operations.invalidate (codes "a") stocked, none))
    × (is_missing (codes "a/f") 15 16 (Operations.invalidate (codes "a") stocked)
        ≡ (Operations.invalidate (codes "a") stocked, false))
    × (get_link (codes "a/f") 15 16 (Operations.invalidate (codes "a") stocked)
        ≡ (Operations.invalidate (codes "a") stocked, none))
    × (get_dir (codes "a/f") 15 (Operations.invalidate (codes "a") stocked)
        ≡ (Operations.invalidate (codes "a") stocked, none))
unfolding path_prefix parent_and_name
lookups-invalidate_example =
    lookups-invalidate (codes "a") (codes "a/f") 15 16 stocked stocked-IsValid stocked-IsFiled refl
      refl

abbrev key : ReadBlockKey
key = record { path = codes "a/f"; offset = 0 }

-- A load of the block is under way.
abbrev flying : ReadBlockCache
flying = record (new_read_block_cache 2 10) { flights = (key, tt) ∷ [] }

flying_begin : load_begin key 0 (new_read_block_cache 2 10) ≡ (flying, lead 0)
unfolding load_begin lookup insert generation_of
flying_begin = refl

flying-NoWrap : NoWrap flying
unfolding generation_of lookup
flying-NoWrap = λ q. omega arith

load_end-stale_example :
    (load_end key
      (generation_of (codes "a/f") flying.generations)
      (ok (codes "old"))
      5
      (ReadBlockCache.invalidate (codes "a") flying)).entries
    ≡ (ReadBlockCache.invalidate (codes "a") flying).entries
unfolding lookup path_prefix
load_end-stale_example =
    load_end-stale key (codes "a") flying flying (ReadBlockCache.invalidate (codes "a") flying)
      (ok (codes "old")) 5 here refl refl flying-NoWrap here

load_begin-joins-stale_example :
    (load_begin key 1 (ReadBlockCache.invalidate (codes "a") flying)).1 ≡ join
unfolding lookup path_prefix
load_begin-joins-stale_example = load_begin-joins-stale key (codes "a") flying 1 tt refl refl

get_dir-put_dir_empty_example : (get_dir (codes "a") 1 (put_dir (codes "a") [] 0 cache)).1 ≡ none
get_dir-put_dir_empty_example = get_dir-put_dir_empty (codes "a") 0 1 cache
