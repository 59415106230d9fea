-- ===== src/Agent/Symlink.antt =====
-- pkg/agent/filesystem/symlink.go: absolute link targets on either side of the mount.
use colnk.Common.{Bytes, bytes_beq, has_prefix, trim_prefix, [], ◌∷◌, ◌++◌, not, if◌then◌else◌}
use colnk.Common.Paths.{slash, is_abs, clean, join_path}

unfoldable pub mount_symlink_target : Bytes → Bytes → Bytes
unfolding is_abs join_path
mount_symlink_target mountpoint target =
    if not (is_abs target) then target else join_path mountpoint target

unfoldable pub local_symlink_target : Bytes → Bytes → Bytes
unfolding clean trim_prefix
local_symlink_target mountpoint target =
    let cleaned = clean mountpoint in
    let prefix = cleaned ++ slash ∷ [] in
    if bytes_beq target cleaned
    then slash ∷ []
    else if has_prefix target prefix
    then slash ∷ trim_prefix target prefix
    else target
