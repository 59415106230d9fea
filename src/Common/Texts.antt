-- ===== src/Common/Texts.antt =====
-- Go strings and byte slices as lists of bytes, with the functions of package strings that the
-- program calls.
use Prim.Native.Char.{code}
use Prim.Native.String.{String}
use Prim.Native.Nat.{ℕ, ◌+◌, ◌<◌}
use mathlib.Core.Path.{◌≡◌, refl, ap, ◌∙◌}
use mathlib.Core.Logic.{◌↔◌}
use mathlib.Core.Option.{Option, none, some}
use mathlib.Core.Bool.{Bool, true, false, ◌&&◌}
use mathlib.Core.List.{List, [], ◌∷◌, ◌++◌, reverse, map}
use native.Mathlib.Omega.{arith}
use colnk.Common.Tests.{nat_beq, leb, if◌then◌else◌, nat_beq_iff}
use colnk.Common.Lists.{drop, length, All}

abbrev pub Bytes : Type 0
Bytes = List ℕ

-- The bytes of an ASCII literal.
abbrev pub codes : String → Bytes
codes String.[] = []
codes (String.◌∷◌ c s) = code c ∷ codes s

abbrev pub bytes_beq : Bytes → Bytes → Bool
bytes_beq [] [] = true
bytes_beq (a ∷ s) (b ∷ t) = nat_beq a b && bytes_beq s t
bytes_beq _ _ = false

pub bytes_beq_iff : (s t : Bytes) → (bytes_beq s t ≡ true) ↔ (s ≡ t)
bytes_beq_iff [] [] = ground arith
bytes_beq_iff [] (b ∷ t) = ground arith
bytes_beq_iff (a ∷ s) [] = ground arith
bytes_beq_iff (a ∷ s) (b ∷ t) = ground (arith, bytes_beq_iff s t, nat_beq_iff a b)

abbrev pub is_empty : Bytes → Bool
is_empty [] = true
is_empty (_ ∷ _) = false

-- strings.HasPrefix(s, prefix)
abbrev pub has_prefix : Bytes → Bytes → Bool
has_prefix s [] = true
has_prefix [] (b ∷ t) = false
has_prefix (a ∷ s) (b ∷ t) = nat_beq a b && has_prefix s t

-- strings.HasSuffix(s, suffix)
unfoldable pub has_suffix : Bytes → Bytes → Bool
has_suffix s t = has_prefix (reverse s) (reverse t)

-- strings.TrimPrefix(s, prefix)
unfoldable pub trim_prefix : Bytes → Bytes → Bytes
trim_prefix s t = if has_prefix s t then drop (length t) s else s

-- strings.TrimSuffix(s, suffix)
unfoldable pub trim_suffix : Bytes → Bytes → Bytes
unfolding has_suffix
trim_suffix s t = if has_suffix s t then reverse (drop (length t) (reverse s)) else s

abbrev pub lower : ℕ → ℕ
lower c = if leb b'A' c && leb c b'Z' then c + 32 else c

-- strings.ToLower on ASCII.
unfoldable pub to_lower : Bytes → Bytes
to_lower = map lower

-- What is left of a text behind its first rune, if that folds to a letter of ASCII. In Unicode's simple
-- folding two runes beside the letters of ASCII fold to one of them: U+017F to s and U+212A to k.
unfoldable pub fold_rune : ℕ → Bytes → Option Bytes
fold_rune b [] = none
fold_rune b (a ∷ s) =
    if nat_beq (lower a) (lower b)
    then some s
    else if nat_beq (lower b) b's' && has_prefix (a ∷ s) (197 ∷ 191 ∷ [])
    then some (drop 1 s)
    else if nat_beq (lower b) b'k' && has_prefix (a ∷ s) (226 ∷ 132 ∷ 170 ∷ [])
    then some (drop 2 s)
    else none

-- strings.EqualFold(s, t) for a text `t` of ASCII.
unfoldable pub equal_fold : Bytes → Bytes → Bool
unfolding fold_rune
equal_fold s [] = is_empty s
equal_fold s (b ∷ t) = elim (fold_rune b s) [ none ↦ false | some rest ↦ equal_fold rest t ]

fold_tests :
    (equal_fold (codes "HoSt.colnk") (codes "host.colnk") ≡ true)
    × (equal_fold (104 ∷ 111 ∷ 197 ∷ 191 ∷ codes "t") (codes "host") ≡ true)
    × (equal_fold (226 ∷ 132 ∷ 170 ∷ []) (codes "K") ≡ true)
    × (equal_fold (codes "hos") (codes "host") ≡ false)
unfolding equal_fold
fold_tests = (refl, refl, refl, refl)

pub has_prefix-append : (s t : Bytes) → has_prefix (s ++ t) s ≡ true
has_prefix-append [] t = refl
has_prefix-append (a ∷ s) t = ground (arith, has_prefix-append s t)

-- A prefix splits the text.
pub has_prefix-split : (s t : Bytes) → has_prefix s t ≡ true → s ≡ t ++ drop (length t) s
has_prefix-split s [] h = refl
has_prefix-split [] (b ∷ t) h = ground arith
has_prefix-split (a ∷ s) (b ∷ t) h = ground (arith, has_prefix-split s t, nat_beq_iff a b)

-- On a text of ASCII EqualFold and ToLower agree.
abbrev pub IsAscii : Bytes → Type 0
IsAscii = All λ c. c < 128

fold_rune-ascii :
    (b a : ℕ) (s : Bytes)
    → a < 128
    → fold_rune b (a ∷ s) ≡ (if nat_beq (lower a) (lower b) then some s else none)
unfolding fold_rune
fold_rune-ascii b a s h = ground (arith, h)

folded :
    (same : Bool) (s t : Bytes)
    → equal_fold s t ≡ bytes_beq (to_lower s) (to_lower t)
    → elim (if same then some s else none) as (λ _. Bool) [
      | none ↦ false
      | some rest ↦ equal_fold rest t
    ]
      ≡ (same && bytes_beq (to_lower s) (to_lower t))
folded true s t h = h
folded false s t h = refl

pub equal_fold-lower :
    (s t : Bytes) → IsAscii s → equal_fold s t ≡ bytes_beq (to_lower s) (to_lower t)
unfolding equal_fold to_lower
equal_fold-lower [] [] h = refl
equal_fold-lower [] (b ∷ t) h = refl
equal_fold-lower (a ∷ s) [] h = refl
equal_fold-lower (a ∷ s) (b ∷ t) (x, h) =
    ap (λ o. elim o as (λ _. Bool) [ none ↦ false | some rest ↦ equal_fold rest t ])
      (fold_rune-ascii b a s x)
    ∙ folded (nat_beq (lower a) (lower b)) s t (equal_fold-lower s t h)
