-- ===== src/Common/Paths/Components.antt =====
-- The components of a cleaned path.
use colnk.Common.Tests.{Bool-cases}
use colnk.Common.Lists.{All, All-append, any}
use colnk.Common.Texts.{Bytes, bytes_beq_iff, is_empty}
use colnk.Common.Paths.{
  slash, is_slash, split_on, push_byte, components, join_components, resolve, resolve_step, dot,
  dot_dot, is_abs, clean, clean_rest,
}
use mathlib.Core.Path.{◌≡◌, refl, sym, ap, subst, ◌∙◌}
use mathlib.Core.Bool.{Bool, false, true≢false}
use mathlib.Core.Logic.{◌⊎◌, inl, inr, ◌≢◌}
use mathlib.Core.List.{List, [], ◌∷◌, ◌++◌, reverse, reverse-cons}
use native.Mathlib.Omega.{arith}
use Prim.Native.Nat.{ℕ}

-- No byte of a component is a slash.
abbrev pub NoSlash : Bytes → Type 0
NoSlash p = any is_slash p ≡ false

push_byte-NoSlash :
    (c : ℕ) (ps : List Bytes) → All NoSlash ps → All NoSlash (push_byte is_slash c ps)
unfolding push_byte any
push_byte-NoSlash c [] a = ground arith
push_byte-NoSlash c (p ∷ ps) a = ground arith

components-NoSlash : (s : Bytes) → All NoSlash (components s)
unfolding split_on
components-NoSlash [] = unfold any in (refl, tt)
components-NoSlash (c ∷ s) = push_byte-NoSlash c (components s) (components-NoSlash s)

pub split_on-cons :
    (sep : ℕ → Bool) (s : Bytes) → (p : Bytes) × (ps : List Bytes) × (split_on sep s ≡ p ∷ ps)
unfolding split_on push_byte
split_on-cons sep [] = ([], [], refl)
split_on-cons sep (c ∷ s) =
    let (p, ps, e) = split_on-cons sep s in
    elim (Bool-cases (sep c)) [
      | inl here ↦ ([], p ∷ ps, rw (e, here) refl)
      | inr other ↦ (c ∷ p, ps, rw (e, other) refl)
    ]

pub components-append : (p s : Bytes) → NoSlash p → components (p ++ slash ∷ s) ≡ p ∷ components s
unfolding split_on any push_byte
components-append [] s h = let (q, qs, e) = split_on-cons is_slash s in rw e refl
components-append (c ∷ p) s h = ground (arith, components-append p s)

components_one : (p : Bytes) → NoSlash p → components p ≡ p ∷ []
unfolding split_on any push_byte
components_one [] h = refl
components_one (c ∷ p) h = ground (arith, components_one p)

-- Joined components are found again.
pub components-join_components :
    (p : Bytes) (ps : List Bytes)
    → All NoSlash (p ∷ ps)
    → components (join_components (p ∷ ps)) ≡ p ∷ ps
unfolding join_components
components-join_components p [] a = components_one p a.0
components-join_components p (q ∷ ps) a =
    rw (components-append p (join_components (q ∷ ps)) a.0)
      (ap (◌∷◌ p) (components-join_components q ps a.1))

-- A name: a component that is not empty, "." or ".." and holds no slash.
abbrev pub IsName : Bytes → Type 0
IsName p = (is_empty p ≡ false) × (p ≢ dot) × (p ≢ dot_dot) × NoSlash p

All-reverse : (ps : List Bytes) → All IsName ps → All IsName (reverse ps)
All-reverse [] a = tt
All-reverse (p ∷ ps) a =
    rw (reverse-cons p ps) (All-append IsName (reverse ps) (p ∷ []) (All-reverse ps a.1) (a.0, tt))

abbrev pub NoDotDot : List Bytes → Type 0
NoDotDot = All (λ p. p ≢ dot_dot)

-- Without ".." resolution leaves names.
resolve-IsName :
    (rooted : Bool) (out ps : List Bytes)
    → All NoSlash ps
    → NoDotDot ps
    → All IsName out
    → All IsName (resolve rooted out ps)
unfolding resolve
resolve-IsName rooted out [] n d a = a
resolve-IsName rooted out (p ∷ ps) n d a =
    resolve-IsName rooted (resolve_step rooted out p) ps n.1 d.1 step
  where
    step : All IsName (resolve_step rooted out p)
    step = unfold resolve_step in ground (arith, bytes_beq_iff p dot, bytes_beq_iff p dot_dot)

-- The components that `Clean` joins, in order.
abbrev resolved : Bytes → List Bytes
resolved path = reverse (resolve (is_abs path) [] (components path))

resolved-IsName : (path : Bytes) → NoDotDot (components path) → All IsName (resolved path)
resolved-IsName path d =
    All-reverse _ (resolve-IsName (is_abs path) [] (components path) (components-NoSlash path) d tt)

names-NoSlash : (ps : List Bytes) → All IsName ps → All NoSlash ps
names-NoSlash [] a = tt
names-NoSlash (p ∷ ps) a = (a.0.3, names-NoSlash ps a.1)

names-NoDotDot : (ps : List Bytes) → All IsName ps → NoDotDot ps
names-NoDotDot [] a = tt
names-NoDotDot (p ∷ ps) a = (a.0.2, names-NoDotDot ps a.1)

is_abs-join_components :
    (p : Bytes) (ps : List Bytes) → IsName p → is_abs (join_components (p ∷ ps)) ≡ false
unfolding is_abs join_components any
is_abs-join_components [] ps n = absurd (true≢false n.0)
is_abs-join_components (c ∷ p) [] n = ground arith
is_abs-join_components (c ∷ p) (q ∷ ps) n = ground arith

-- The path "." and joined names are relative and have no "..".
abbrev pub IsContained : Bytes → Type 0
IsContained path = (is_empty path ≡ false) × (is_abs path ≡ false) × NoDotDot (components path)

dot-IsContained : IsContained dot
unfolding is_abs split_on push_byte
dot-IsContained = (refl, refl, ((λ e. cc), tt))

join_components-IsContained :
    (ps : List Bytes)
    → All IsName ps
    → is_empty (join_components ps) ≡ false
    → IsContained (join_components ps)
join_components-IsContained [] a h = unfold join_components in absurd (true≢false h)
join_components-IsContained (p ∷ ps) a h = (
  h,
  is_abs-join_components p ps a.0,
  subst NoDotDot (sym (components-join_components p ps (names-NoSlash (p ∷ ps) a)))
      (names-NoDotDot (p ∷ ps) a),
)

clean_cases :
    (path : Bytes)
    → is_abs path ≡ false
    → (clean path ≡ dot) ⊎ ((is_empty (clean_rest path) ≡ false) × (clean path ≡ clean_rest path))
unfolding clean
clean_cases path rel = ground arith

clean_rest-resolved : (path : Bytes) → clean_rest path ≡ join_components (resolved path)
unfolding clean_rest
clean_rest-resolved path = refl

-- Cleaning a relative path without ".." gives such a path.
pub clean-IsContained :
    (path : Bytes) → is_abs path ≡ false → NoDotDot (components path) → IsContained (clean path)
clean-IsContained path rel d = elim (clean_cases path rel) [
  | inl e ↦ subst IsContained (sym e) dot-IsContained
  | inr (given, e) ↦ subst IsContained (sym (e ∙ clean_rest-resolved path)) (
      join_components-IsContained (resolved path) (resolved-IsName path d)
        (rw (← clean_rest-resolved path) given))
]
