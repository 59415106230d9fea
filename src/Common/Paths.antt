-- ===== src/Common/Paths.antt =====
-- What the program uses of Go's packages path and path/filepath on Unix: `Split`, `Clean`, `Join`,
-- `IsAbs`, `Dir`. `Clean` works on the components between slashes.
pub mod Components
use Prim.Native.Nat.{ℕ}
use mathlib.Core.Path.{◌≡◌, refl, ap}
use mathlib.Core.Bool.{Bool, true, false, ◌||◌}
use mathlib.Core.Logic.{◌⊎◌, inl, inr}
use mathlib.Core.List.{List, [], ◌∷◌, ◌++◌, reverse, reverse-append, reverse-reverse}
use mathlib.Core.Option.{Option, none, some}
use native.Mathlib.Omega.{arith}
use colnk.Common.Tests.{nat_beq, if◌then◌else◌}
use colnk.Common.Lists.{drop}
use colnk.Common.Texts.{Bytes, codes, bytes_beq, is_empty, has_prefix, has_suffix, trim_suffix}

abbrev pub slash : ℕ
slash = b'/'

-- The text before and after the last slash.
unfoldable pub split_last : Bytes → Option (Bytes × Bytes)
split_last [] = none
split_last (c ∷ s) = elim (split_last s) [
  | some (before, after) ↦ some (c ∷ before, after)
  | none ↦ if nat_beq c slash then some ([], s) else none
]

-- path.Split: the directory with its slash, and the file name.
unfoldable pub path_split : Bytes → Bytes × Bytes
unfolding split_last
path_split value = elim (split_last value) [
  | none ↦ ([], value)
  | some (before, after) ↦ (before ++ slash ∷ [], after)
]

-- One byte in front of the first part, or a new part if it separates.
unfoldable pub push_byte : (ℕ → Bool) → ℕ → List Bytes → List Bytes
push_byte sep c [] = if sep c then [] ∷ [] ∷ [] else (c ∷ []) ∷ []
push_byte sep c (p ∷ ps) = if sep c then [] ∷ p ∷ ps else (c ∷ p) ∷ ps

-- The parts between the bytes that separate, empty ones included.
unfoldable pub split_on : (ℕ → Bool) → Bytes → List Bytes
unfolding push_byte
split_on sep [] = [] ∷ []
split_on sep (c ∷ s) = push_byte sep c (split_on sep s)

abbrev pub is_slash : ℕ → Bool
is_slash c = nat_beq c slash

abbrev pub components : Bytes → List Bytes
components = split_on is_slash

unfoldable pub join_components : List Bytes → Bytes
join_components [] = []
join_components (p ∷ []) = p
join_components (p ∷ q ∷ ps) = p ++ slash ∷ join_components (q ∷ ps)

abbrev pub dot : Bytes
dot = codes "."

abbrev pub dot_dot : Bytes
dot_dot = codes ".."

-- A ".." takes the last component away. Above the start it stays, unless the path is rooted.
unfoldable pub pop_component : Bool → List Bytes → List Bytes
pop_component rooted [] = if rooted then [] else dot_dot ∷ []
pop_component rooted (q ∷ out) = if bytes_beq q dot_dot then dot_dot ∷ q ∷ out else out

unfoldable pub resolve_step : Bool → List Bytes → Bytes → List Bytes
unfolding pop_component
resolve_step rooted out p =
    if is_empty p || bytes_beq p dot
    then out
    else if bytes_beq p dot_dot
    then pop_component rooted out
    else p ∷ out

-- The components that are left, the last one first.
unfoldable pub resolve : Bool → List Bytes → List Bytes → List Bytes
unfolding resolve_step
resolve rooted out [] = out
resolve rooted out (p ∷ ps) = resolve rooted (resolve_step rooted out p) ps

unfoldable pub is_abs : Bytes → Bool
is_abs path = has_prefix path (slash ∷ [])

-- The components of a path after resolution, joined.
unfoldable pub clean_rest : Bytes → Bytes
unfolding resolve join_components split_on
clean_rest path = join_components (reverse (resolve (is_abs path) [] (components path)))

-- Clean
unfoldable pub clean : Bytes → Bytes
unfolding is_abs
clean path =
    if is_empty path
    then dot
    else if is_abs path
    then slash ∷ clean_rest path
    else if is_empty (clean_rest path)
    then dot
    else clean_rest path

-- path.Join of two elements: empty elements are left out.
unfoldable pub join_path : Bytes → Bytes → Bytes
unfolding clean
join_path a b = if is_empty a then (if is_empty b then [] else clean b) else clean (a ++ slash ∷ b)

-- path.Dir
unfoldable pub path_dir : Bytes → Bytes
unfolding path_split clean
path_dir path = clean (path_split path).0

clean_tests :
    (clean (codes "/a/../../b/./c//") ≡ codes "/b/c")
    × (clean (codes "../a/../..") ≡ codes "../..")
    × (clean (codes "a/..") ≡ codes ".")
    × (path_dir (codes "a/b/c") ≡ codes "a/b")
    × (join_path (codes "a") (codes "../b") ≡ codes "b")
unfolding clean clean_rest path_dir join_path
clean_tests = (refl, refl, refl, refl, refl)

pub trim_suffix-slash : (s : Bytes) → trim_suffix (s ++ slash ∷ []) (slash ∷ []) ≡ s
unfolding trim_suffix
trim_suffix-slash s = ground (arith, reverse-append s (slash ∷ []), reverse-reverse s)
