-- ===== src/Agent/Files/Keeps/Queries.antt =====
-- The table of nodes through Attr, Lookup, ReadDirAll and Readlink (pkg/agent/filesystem/nodes_linux.go).
use colnk.Common.{
  ℕ, Bytes, List, [], Option, none, some, if◌then◌else◌, Option-cases, Bool-cases, inl, inr, pos,
  codes, errno, Outcome, done, failed, ◌>>=◌, ◌>>◌, Always,
}
use colnk.Protocol.Types.{Response, FileAttr, DirEntry}
use colnk.Agent.WriteBack.{request_for}
use colnk.Agent.Nodes.{RemoteFs, remote_path}
use colnk.Agent.Nodes.Registry.{IsRegistry}
use colnk.Agent.Attributes.{
  fuse_dir_entries, FuseAttr, or_fuse, fuse_error, is_remote_errno, enoent,
}
use colnk.Agent.MetadataCache.Operations.{put_missing, put_attr, put_dir, put_link}
use colnk.Agent.Symlink.{mount_symlink_target}
use colnk.Agent.Files.{
  RemoteCalls, on_caches, ask_caches, fs_call, report, stat, attr, lookup_child, read_dir_all,
  readlink, cached_missing, cached_dir,
}
use colnk.Agent.Files.Keeps.{Keeps, keeps, fs_call-Keeps, fail-Keeps}

module _ {R : Type 0} (calls : RemoteCalls R) (now : ℕ) where
  pub report-Keeps :
      (id : ℕ) (target : FuseAttr) (value : Option FileAttr)
      → Keeps (report calls now id target value)
  unfolding report
  report-Keeps id target value = record { keep = λ fs r. r }

  pub stat-Keeps :
      (id : ℕ) (target : FuseAttr) (path : Bytes) → Keeps (stat calls now id target path)
  unfolding stat
  stat-Keeps id target path = record {
    keep = λ fs r. go (fs_call calls now _ [] fs) ((fs_call-Keeps calls now _ []).keep fs r);
  }
    where
      go :
          (o : Outcome (RemoteFs R) (Response × Bytes))
          → Always IsRegistry o
          → Always IsRegistry (elim o [
            | failed e fs' ↦
                if is_remote_errno e enoent
                then failed (fuse_error e) (record fs' {
                  caches = record fs'.caches {
                    metadata = put_missing path now fs'.caches.metadata;
                  };
                })
                else failed (fuse_error e) fs'
            | done (response, _) fs' ↦ report calls now id target response.attr (record fs' {
              caches = record fs'.caches {
                metadata = put_attr path response.attr now fs'.caches.metadata;
              };
            })
          ])
      go (failed e fs') r = elim (Bool-cases (is_remote_errno e enoent)) [
        | inl b ↦ rw (b) (unfold IsRegistry in r)
        | inr b ↦ rw (b) r
      ]
      go (done (response, _) fs') r =
          (report-Keeps id target response.attr).keep _ (unfold IsRegistry in r)

  pub attr-Keeps : (id : ℕ) (target : FuseAttr) → Keeps (attr calls now id target)
  unfolding attr
  attr-Keeps id target = search (keeps, attr_rest)
    where
      attr_rest :
          (path : Bytes) (cached : Option FileAttr)
          → Keeps (elim cached [
            | some value ↦ report calls now id target (some value)
            | none ↦ do
              missing ← ask_caches (cached_missing path now)
              (if missing then failed (errno enoent) else stat calls now id target path)
          ])
      attr_rest path none = search (keeps, stat-Keeps, fail-Keeps)
      attr_rest path (some value) = report-Keeps id target (some value)

  pub lookup_child-Keeps :
      (id : ℕ) (name : Bytes) (fresh : FuseAttr) → Keeps (lookup_child calls now id name fresh)
  unfolding lookup_child
  lookup_child-Keeps id name fresh = search (keeps, attr-Keeps)

  pub read_dir_all-Keeps : (id : ℕ) → Keeps (read_dir_all calls now id)
  unfolding read_dir_all
  read_dir_all-Keeps id = record {
    keep = λ fs r. elim (Option-cases (cached_dir (remote_path id fs) now fs.caches).1) [
      | inr (entries, e) ↦ rw (e, read_dir_all) (unfold IsRegistry in r)
      | inl e ↦ rw (e, read_dir_all) (go fs r (calls.read_dir (remote_path id fs) fs.remote))
    ];
  }
    where
      go :
          (fs : RemoteFs R)
          → IsRegistry fs
          → (o : Outcome R (List DirEntry))
          → Always IsRegistry (elim o [
            | failed e r ↦ failed (fuse_error e) (record fs {
              caches = (cached_dir (remote_path id fs) now fs.caches).0;
              remote = r;
            })
            | done entries r ↦ done (fuse_dir_entries entries) (record fs {
              caches = record (cached_dir (remote_path id fs) now fs.caches).0 {
                metadata =
                    put_dir
                      (remote_path id fs)
                      entries
                      now
                      (cached_dir (remote_path id fs) now fs.caches).0.metadata;
              };
              remote = r;
            })
          ])
      go fs h (failed e r) = unfold IsRegistry in h
      go fs h (done entries r) = unfold IsRegistry in h

  pub readlink-Keeps : (id : ℕ) → Keeps (readlink calls now id)
  unfolding readlink
  readlink-Keeps id = search (keeps, rest)
    where
      rest :
          (path : Bytes) (cached : Option Bytes)
          → Keeps (elim cached [
            | some target ↦ λ fs. done (mount_symlink_target fs.mountpoint target) fs
            | none ↦ do
              answer ← or_fuse (fs_call calls now (request_for (codes "readlink") path (pos 0)) [])
              on_caches λ c. record c { metadata = put_link path answer.1 now c.metadata }
              (λ fs. done (mount_symlink_target fs.mountpoint answer.1) fs)
          ])
      rest path none = search (keeps, fs_call-Keeps, mounted)
        where
          mounted :
              (target : Bytes)
              → Keeps {R = R} (λ fs. done (mount_symlink_target fs.mountpoint target) fs)
          mounted target = record { keep = λ fs r. r }
      rest path (some target) = record { keep = λ fs r. r }
