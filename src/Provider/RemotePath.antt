-- ===== src/Provider/RemotePath.antt =====
-- pkg/provider/filesystem/path.go, cleanRemotePath: the paths that a peer sends.
pub mod Contained
use colnk.Common.{
  ℕ, ◌+◌, Bytes, codes, is_empty, bytes_beq, nat_beq, has_prefix, List, [], ◌∷◌, ◌++◌, Bool, true,
  false, not, ◌&&◌, ◌||◌, if◌then◌else◌, keep, any, Result, ok, err, errno,
}
use colnk.Common.Paths.{slash, split_on, clean, dot, dot_dot}

abbrev pub eperm : ℕ
eperm = 1

-- `value == '/' || value == '\\'`
abbrev pub is_separator : ℕ → Bool
is_separator c = nat_beq c slash || nat_beq c b'\\'

-- strings.FieldsFunc(path, …): the parts that are not empty.
unfoldable pub fields : Bytes → List Bytes
unfolding split_on keep
fields path = keep (λ p. not (is_empty p)) (split_on is_separator path)

-- strings.TrimLeft(path, "/\\")
unfoldable pub trim_left : Bytes → Bytes
trim_left [] = []
trim_left (c ∷ s) = if is_separator c then trim_left s else c ∷ s

-- The code behind the loop over the components.
unfoldable pub clean_checked : Bytes → Result Bytes
clean_checked path =
    if bytes_beq path dot_dot || has_prefix path (dot_dot ++ slash ∷ [])
    then err (errno eperm)
    else ok path

unfoldable pub clean_remote_path : Bytes → Result Bytes
unfolding clean_checked
clean_remote_path remote_path =
    if any (λ component. bytes_beq component dot_dot) (fields remote_path)
    then err (errno eperm)
    else clean_checked
        (if is_empty (clean (trim_left remote_path)) then dot else clean (trim_left remote_path))
