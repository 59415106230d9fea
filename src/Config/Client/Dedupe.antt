-- ===== src/Config/Client/Dedupe.antt =====
-- dedupeStrings and dedupePorts of pkg/client/config.go.
use colnk.Common.{
  ℕ, Bytes, List, [], ◌∷◌, ◌++◌, foldl, Bool, false, not, ◌&&◌, ◌||◌, is_empty, any, Map, lookup,
  insert, bytes_eq, nat_eq, Eq, ◌==◌, ◌≡◌, refl, arith, lookup-insert, bytes_beq_iff,
}
use colnk.Common.Net.{trim_space}
use colnk.Config.Client.{
  Seen, seen_before, dedupe_strings_step, dedupe_strings, dedupe_ports_step, dedupe_ports,
}

-- No element occurs twice.
unfoldable pub has_repeat : {A : Type 0} ⦃e : Eq A⦄ → List A → Bool
unfolding any
has_repeat [] = false
has_repeat (x ∷ xs) = any (λ y. x == y) xs || has_repeat xs

module _ {A : Type 0} ⦃e : Eq A⦄ where
  any-append :
      (w : A) (xs : List A) (v : A)
      → any (λ y. w == y) (xs ++ v ∷ []) ≡ any (λ y. w == y) xs || w == v
  unfolding any
  any-append w [] v = ground arith
  any-append w (x ∷ xs) v = ground (arith, any-append w xs v)

  has_repeat-append :
      (xs : List A) (v : A) → has_repeat (xs ++ v ∷ []) ≡ has_repeat xs || any (λ y. y == v) xs
  unfolding has_repeat any
  has_repeat-append [] v = ground arith
  has_repeat-append (x ∷ xs) v = ground (arith, has_repeat-append xs v, any-append x xs v)

  -- The invariant of both loops: `seen` holds what `result` holds, and nothing occurs twice there.
  abbrev pub IsTracked : Seen A → Type 0
  IsTracked (seen, result) =
      ((w : A) → seen_before w seen ≡ any (λ y. w == y) result) × (has_repeat result ≡ false)

  any_flip : (v : A) (xs : List A) → any (λ y. v == y) xs ≡ any (λ y. y == v) xs
  unfolding any
  any_flip v [] = refl
  any_flip v (x ∷ xs) = ground (arith, any_flip v xs, e.eqb_iff v x, e.eqb_iff x v)

  -- Appending a value that was not seen keeps it.
  push-IsTracked :
      (seen : Map A (Unit {0})) (result : List A) (v : A)
      → IsTracked (seen, result)
      → seen_before v seen ≡ false
      → IsTracked (insert v tt seen, result ++ v ∷ [])
  push-IsTracked seen result v (h, r) new = (
    λ w. ground (
      arith,
      lookup-insert v w tt seen,
      any-append w result v,
      h w,
      e.eqb_iff v w,
      e.eqb_iff w v,
    ),
    ground (arith, has_repeat-append result v, h v, any_flip v result),
  )

dedupe_strings_step-IsTracked :
    (s : Seen Bytes) (v : Bytes) → IsTracked s → IsTracked (dedupe_strings_step s v)
unfolding dedupe_strings_step
dedupe_strings_step-IsTracked (seen, result) v h =
    ground (arith, push-IsTracked seen result (trim_space v) h)

dedupe_ports_step-IsTracked : (s : Seen ℕ) (v : ℕ) → IsTracked s → IsTracked (dedupe_ports_step s v)
unfolding dedupe_ports_step
dedupe_ports_step-IsTracked (seen, result) v h = ground (arith, push-IsTracked seen result v h)

-- An invariant of the body of a loop is one of the loop.
foldl-keeps :
    {S : Type 0} {A : Type 0} (P : S → Type 0) (f : S → A → S)
    → ((s : S) (a : A) → P s → P (f s a))
    → (xs : List A) (s : S) → P s
    → P (foldl f s xs)
foldl-keeps P f keeps [] s h = h
foldl-keeps P f keeps (x ∷ xs) s h = foldl-keeps P f keeps xs (f s x) (keeps s x h)

-- dedupeStrings returns no text twice.
pub has_repeat-dedupe_strings : (values : List Bytes) → has_repeat (dedupe_strings values) ≡ false
unfolding dedupe_strings has_repeat any lookup
has_repeat-dedupe_strings values =
    (foldl-keeps (λ s. IsTracked s) dedupe_strings_step dedupe_strings_step-IsTracked values
      ([], []) (λ w. refl, refl)).1

-- dedupePorts returns no port twice.
pub has_repeat-dedupe_ports : (values : List ℕ) → has_repeat (dedupe_ports values) ≡ false
unfolding dedupe_ports has_repeat any lookup
has_repeat-dedupe_ports values =
    (foldl-keeps (λ s. IsTracked s) dedupe_ports_step dedupe_ports_step-IsTracked values ([], [])
      (λ w. refl, refl)).1

-- `w` is what the loop makes of a text.
abbrev gives : Bytes → Bytes → Bool
gives w raw = not (is_empty (trim_space raw)) && w == trim_space raw

unfoldable pub is_given : Bytes → List Bytes → Bool
unfolding any
is_given w values = any (gives w) values

dedupe_strings_step_member :
    (w v : Bytes) (s : Seen Bytes)
    → IsTracked s
    → any (λ y. w == y) (dedupe_strings_step s v).1 ≡ any (λ y. w == y) s.1 || gives w v
unfolding dedupe_strings_step
dedupe_strings_step_member w v (seen, result) (h, _) =
    ground
      (arith, any-append w result (trim_space v), h (trim_space v), bytes_beq_iff w (trim_space v))

dedupe_strings_loop :
    (w : Bytes) (values : List Bytes) (s : Seen Bytes)
    → IsTracked s
    → any (λ y. w == y) (foldl dedupe_strings_step s values).1
      ≡ any (λ y. w == y) s.1 || is_given w values
unfolding is_given any
dedupe_strings_loop w [] s h = ground arith
dedupe_strings_loop w (v ∷ vs) s h = ground (
  arith,
  dedupe_strings_loop w vs (dedupe_strings_step s v) (dedupe_strings_step-IsTracked s v h),
  dedupe_strings_step_member w v s h,
)

-- dedupeStrings returns a text exactly when it is not empty and one of the given texts trims to it.
pub member-dedupe_strings :
    (w : Bytes) (values : List Bytes)
    → any (λ y. w == y) (dedupe_strings values) ≡ is_given w values
unfolding dedupe_strings has_repeat any lookup
member-dedupe_strings w values = dedupe_strings_loop w values ([], []) (λ w. refl, refl)
