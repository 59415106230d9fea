-- ===== src/Agent/Files/Keeps/Contents.antt =====
-- The table of nodes through Read, Write, Fsync, Flush and Setattr
-- (pkg/agent/filesystem/nodes_linux.go).
use colnk.Common.{
  ℕ, Bytes, Option, none, some, ℤ, Result, Outcome, done, failed, Io, Always, ok, err, lift, zero,
  suc,
}
use colnk.Protocol.Types.{FileAttr}
use colnk.Agent.Nodes.{RemoteFs}
use colnk.Agent.Nodes.Registry.{IsRegistry}
use colnk.Agent.Attributes.{fill_attr, FuseAttr}
use colnk.Agent.Files.{RemoteCalls}
use colnk.Agent.Files.Keeps.{Keeps, keeps, bind-Keeps, fs_call-Keeps}
use colnk.Agent.Files.Keeps.Queries.{attr-Keeps}
use colnk.Agent.Files.Contents.{
  read_block, fly, load, next_block, read_loop, read, write_node, fsync_remote, fsync, flush,
}
use colnk.Agent.Files.Setattr.{SetattrRequest, set_size, set_mode, set_mtime, set_changed, setattr}
use colnk.Agent.ReadBlockCache.{
  ReadBlockKey, ReadBlockCache, Begin, hit, join, lead, load_begin, load_end,
}

lift-Keeps : {R A : Type 0} (result : Result A) → Keeps {R = R} (lift result)
lift-Keeps (ok a) = record { keep = λ fs r. r }
lift-Keeps (err e) = record { keep = λ fs r. r }

module _ {R : Type 0} (calls : RemoteCalls R) (joined : ReadBlockKey → Result Bytes) (now : ℕ) where
  pub flush-Keeps : (id : ℕ) → Keeps (flush calls joined now id)
  unfolding flush
  flush-Keeps id = search keeps

  pub write_node-Keeps :
      (id offset : ℕ) (content : Bytes) → Keeps (write_node calls joined now id offset content)
  unfolding write_node
  write_node-Keeps id offset content = search keeps depth 14

  pub fsync_remote-Keeps : (id : ℕ) → Keeps (fsync_remote calls joined now id)
  unfolding fsync_remote
  fsync_remote-Keeps id = search (keeps, fs_call-Keeps)

  pub fsync-Keeps : (id : ℕ) → Keeps (fsync calls joined now id)
  unfolding fsync
  fsync-Keeps id = search (keeps, fsync_remote-Keeps)

  pub read_block-Keeps : (key : ReadBlockKey) → Keeps (read_block calls joined now key)
  unfolding read_block
  read_block-Keeps key = search (keeps, fs_call-Keeps)

  pub fly-Keeps :
      (key : ReadBlockKey) (generation : ℕ) → Keeps (fly calls joined now key generation)
  unfolding fly
  fly-Keeps key generation = record {
    keep = λ fs r. go (read_block calls joined now key fs) ((read_block-Keeps key).keep fs r);
  }
    where
      go :
          (o : Outcome (RemoteFs R) Bytes)
          → Always IsRegistry o
          → Always IsRegistry (elim o [
            | done content fs' ↦ done content (record fs' {
              caches = record fs'.caches {
                blocks = load_end key generation (ok content) now fs'.caches.blocks;
              };
            })
            | failed e fs' ↦ failed e (record fs' {
              caches = record fs'.caches {
                blocks = load_end key generation (err e) now fs'.caches.blocks;
              };
            })
          ])
      go (done content fs') r = unfold IsRegistry in r
      go (failed e fs') r = unfold IsRegistry in r

  pub load-Keeps : (key : ReadBlockKey) → Keeps (load calls joined now key)
  unfolding load
  load-Keeps key = record {
    keep = λ fs r.
        go fs (load_begin key now fs.caches.blocks).1 (load_begin key now fs.caches.blocks).0 r;
  }
    where
      go :
          (fs : RemoteFs R) (begin : Begin) (blocks : ReadBlockCache)
          → IsRegistry fs
          → let fs' = record fs { caches = record fs.caches { blocks = blocks } } in
            Always IsRegistry (elim begin [
              | hit content ↦ done content fs'
              | join ↦ lift (joined key) fs'
              | lead generation ↦ fly calls joined now key generation fs'
            ])
      go fs (hit content) blocks r = unfold IsRegistry in r
      go fs join blocks r = (lift-Keeps (joined key)).keep _ (unfold IsRegistry in r)
      go fs (lead generation) blocks r = (fly-Keeps key generation).keep _ (unfold IsRegistry in r)

  pub next_block-Keeps :
      (again : Bytes → ℕ → ℕ → Bytes → Io (RemoteFs R) Bytes) (path : Bytes) (offset remaining : ℕ)
      (acc : Bytes) (inside : ℕ) (content : Bytes)
      → ((p : Bytes) (o m : ℕ) (a : Bytes) → Keeps (again p o m a))
      → Keeps (next_block calls joined now again path offset remaining acc inside content)
  unfolding next_block
  next_block-Keeps again path offset remaining acc inside content h = search (keeps, h)

  pub read_loop-Keeps :
      (fuel : ℕ) (path : Bytes) (offset remaining : ℕ) (acc : Bytes)
      → Keeps (read_loop calls joined now fuel path offset remaining acc)
  unfolding read_loop
  read_loop-Keeps zero path offset remaining acc = search keeps
  read_loop-Keeps (suc fuel) path offset zero acc = search keeps
  read_loop-Keeps (suc fuel) path offset (suc less) acc =
      bind-Keeps _ _ (load-Keeps _)
        λ content. next_block-Keeps _ path offset (suc less) acc _ content (read_loop-Keeps fuel)

  pub read-Keeps : (id offset count : ℕ) → Keeps (read calls joined now id offset count)
  unfolding read
  read-Keeps id offset count = search (keeps, read_loop-Keeps)

module _ {R : Type 0} (calls : RemoteCalls R) (now : ℕ) where
  pub set_size-Keeps :
      (id : ℕ) (size : Option ℕ) (latest : Option FileAttr)
      → Keeps (set_size calls now id size latest)
  unfolding set_size
  set_size-Keeps id none latest = search keeps
  set_size-Keeps id (some size) latest = search (keeps, fs_call-Keeps)

  pub set_mode-Keeps :
      (id : ℕ) (mode : Option ℕ) (latest : Option FileAttr)
      → Keeps (set_mode calls now id mode latest)
  unfolding set_mode
  set_mode-Keeps id none latest = search keeps
  set_mode-Keeps id (some mode) latest = search (keeps, fs_call-Keeps)

  pub set_mtime-Keeps :
      (id : ℕ) (mtime : Option ℤ) (latest : Option FileAttr)
      → Keeps (set_mtime calls now id mtime latest)
  unfolding set_mtime
  set_mtime-Keeps id none latest = search keeps
  set_mtime-Keeps id (some t) latest = search (keeps, fs_call-Keeps) depth 14

  pub set_changed-Keeps :
      (id : ℕ) (target : FuseAttr) (latest : Option FileAttr)
      → Keeps (set_changed calls now id target latest)
  unfolding set_changed IsRegistry
  set_changed-Keeps id target none = attr-Keeps calls now id target
  set_changed-Keeps id target (some latest) = search (keeps, filled)
    where
      filled : Keeps {R = R} (λ fs. done (fill_attr target (some latest) fs.caches.metadata.ttl) fs)
      filled = record { keep = λ fs r. r }

  pub setattr-Keeps :
      (id : ℕ) (request : SetattrRequest) (target : FuseAttr)
      → Keeps (setattr calls now id request target)
  unfolding setattr
  setattr-Keeps id request target =
      search (keeps, set_size-Keeps, set_mode-Keeps, set_mtime-Keeps, set_changed-Keeps) depth 16
