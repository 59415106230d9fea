-- ===== src/Common/Utf8.antt =====
-- utf8.ValidString of Go's package unicode/utf8: the texts that encoding/json passes on unchanged.
use Prim.Native.Nat.{ℕ, zero, suc}
use mathlib.Core.Path.{◌≡◌, refl}
use mathlib.Core.Bool.{Bool, true, false, ◌&&◌}
use mathlib.Core.List.{[], ◌∷◌}
use colnk.Common.Tests.{nat_beq, leb, ltb, if◌then◌else◌}
use colnk.Common.Texts.{Bytes, codes}

-- What a first byte asks for: how many bytes follow, and between which bounds the first of them lies.
unfoldable pub after_first : ℕ → ℕ × ℕ × ℕ
after_first c =
    if leb 194 c && leb c 223
    then (1, 128, 191)
    else if nat_beq c 224
    then (2, 160, 191)
    else if nat_beq c 237
    then (2, 128, 159)
    else if leb 225 c && leb c 239
    then (2, 128, 191)
    else if nat_beq c 240
    then (3, 144, 191)
    else if leb 241 c && leb c 243
    then (3, 128, 191)
    else if nat_beq c 244
    then (3, 128, 143)
    else (1, 1, 0)

-- With bytes of a rune still to come, the next of them between the bounds.
unfoldable pub continues : ℕ → ℕ → ℕ → Bytes → Bool
unfolding after_first
continues zero low high [] = true
continues zero low high (c ∷ s) =
    let (count, next_low, next_high) = after_first c in
    let plain = continues 0 0 0 s in
    let wide = continues count next_low next_high s in if ltb c 128 then plain else wide
continues (suc count) low high [] = false
continues (suc count) low high (c ∷ s) = leb low c && leb c high && continues count 128 191 s

abbrev pub is_utf8 : Bytes → Bool
is_utf8 s = continues 0 0 0 s

abbrev pub IsUtf8 : Bytes → Type 0
IsUtf8 s = is_utf8 s ≡ true

utf8_tests :
    (is_utf8 (codes "plain") ≡ true)
    × (is_utf8 (197 ∷ 191 ∷ []) ≡ true)
    × (is_utf8 (226 ∷ 132 ∷ 170 ∷ []) ≡ true)
    × (is_utf8 (226 ∷ 132 ∷ []) ≡ false)
    × (is_utf8 (192 ∷ 128 ∷ []) ≡ false)
    × (is_utf8 (237 ∷ 160 ∷ 128 ∷ []) ≡ false)
    × (is_utf8 (255 ∷ []) ≡ false)
unfolding continues
utf8_tests = (refl, refl, refl, refl, refl, refl, refl)
