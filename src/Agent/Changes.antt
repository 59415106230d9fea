-- ===== src/Agent/Changes.antt =====
-- pkg/agent/filesystem/nodes_linux.go, invalidateChange and updateChangedAttr: what a change of a remote
-- file does to the two caches of the mounted file system.
use colnk.Common.{Bytes, bytes_beq, Option, ℕ, if◌then◌else◌, []}
use colnk.Common.Paths.{path_dir, dot}
use colnk.Protocol.Types.{FileAttr}
use colnk.Agent.MetadataCache.{MetadataCache}
use colnk.Agent.MetadataCache.Operations.{put_attr, invalidate_exact}
use colnk.Agent.MetadataCache.Operations
use colnk.Agent.ReadBlockCache.{ReadBlockCache}
use colnk.Agent.ReadBlockCache

-- `cache` and `dataCache` of remoteFS.
pub record Caches : Type 0 where
  pub metadata : MetadataCache
  pub blocks : ReadBlockCache

-- `path.Dir(remotePath)`, with "" in place of ".".
unfoldable pub parent_of : Bytes → Bytes
unfolding path_dir
parent_of path = if bytes_beq (path_dir path) dot then [] else path_dir path

unfoldable pub invalidate_change : Bytes → Caches → Caches
unfolding parent_of invalidate_exact Operations.invalidate ReadBlockCache.invalidate
invalidate_change path caches = record {
  metadata = invalidate_exact (parent_of path) (Operations.invalidate path caches.metadata);
  blocks = ReadBlockCache.invalidate path caches.blocks;
}

unfoldable pub update_changed_attr : Bytes → Option FileAttr → ℕ → Caches → Caches
unfolding invalidate_change put_attr
update_changed_attr path attr now caches =
    let changed = invalidate_change path caches in
    record changed { metadata = put_attr path attr now changed.metadata }
