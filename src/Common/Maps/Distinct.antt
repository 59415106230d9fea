-- ===== src/Common/Maps/Distinct.antt =====
-- Association lists in which no key stands twice, as in a Go map, and deletion while ranging.
use colnk.Common.Tests.{if◌then◌else◌}
use colnk.Common.Lists.{length, All}
use colnk.Common.Maps.{Eq, Map, lookup, insert, delete, lookup-insert, lookup-delete}
use Prim.Native.Nat.{◌≤◌}
use mathlib.Core.Path.{◌≡◌, refl}
use mathlib.Core.Bool.{Bool}
use mathlib.Core.List.{[], ◌∷◌}
use mathlib.Core.Option.{Option, none, some}
use native.Mathlib.Omega.{arith}

-- What is left of a looked-up value when the values that pass a test are deleted.
abbrev pub unless {ℓ} : {V : Type ℓ} → (V → Bool) → Option V → Option V
unless p none = none
unless p (some v) = if p v then none else some v

module _ {ℓ κ} {K : Type ℓ} {V : Type κ} where
  -- `for key, value := range m { if test { delete(m, key) } }`
  unfoldable pub delete_if : (K → V → Bool) → Map K V → Map K V
  delete_if p [] = []
  delete_if p ((k, v) ∷ m) = if p k v then delete_if p m else (k, v) ∷ delete_if p m

  pub length-delete_if-le : (p : K → V → Bool) (m : Map K V) → length (delete_if p m) ≤ length m
  unfolding delete_if
  length-delete_if-le p [] = omega arith
  length-delete_if-le p ((k, v) ∷ m) = ground (arith, length-delete_if-le p m)

  module _ {μ} (P : K × V → Type μ) where
    pub All-delete_if : (p : K → V → Bool) (m : Map K V) → All P m → All P (delete_if p m)
    unfolding delete_if
    All-delete_if p [] a = tt
    All-delete_if p ((k, v) ∷ m) a = ground (arith, All-delete_if p m a.1)

module _ {ℓ κ} {K : Type ℓ} {V : Type κ} ⦃e : Eq K⦄ where
  abbrev pub Distinct : Map K V → Type κ
  Distinct [] = Unit
  Distinct ((k, v) ∷ m) = (lookup k m ≡ none) × Distinct m

  pub insert-Distinct : (k : K) (v : V) (m : Map K V) → Distinct m → Distinct (insert k v m)
  unfolding insert lookup
  insert-Distinct k v [] d = (refl, tt)
  insert-Distinct k v ((j, w) ∷ m) d =
      ground (arith, insert-Distinct k v m d.1, lookup-insert k j v m, e.eqb_iff j k, e.eqb_iff k j)

  pub delete-Distinct : (k : K) (m : Map K V) → Distinct m → Distinct (delete k m)
  unfolding delete lookup
  delete-Distinct k [] d = tt
  delete-Distinct k ((j, w) ∷ m) d =
      ground (arith, delete-Distinct k m d.1, lookup-delete k j m, e.eqb_iff j k, e.eqb_iff k j)

  lookup-delete_if-none :
      (p : K → V → Bool) (k : K) (m : Map K V) → lookup k m ≡ none → lookup k (delete_if p m) ≡ none
  unfolding lookup delete_if
  lookup-delete_if-none p k [] h = refl
  lookup-delete_if-none p k ((j, w) ∷ m) h = ground (arith, lookup-delete_if-none p k m)

  pub delete_if-Distinct : (p : K → V → Bool) (m : Map K V) → Distinct m → Distinct (delete_if p m)
  unfolding delete_if
  delete_if-Distinct p [] d = tt
  delete_if-Distinct p ((j, w) ∷ m) d =
      ground (arith, delete_if-Distinct p m d.1, lookup-delete_if-none p j m d.0)

  -- Exactly the values that pass the test are gone.
  pub lookup-delete_if :
      (p : K → V → Bool) (k : K) (m : Map K V)
      → Distinct m
      → lookup k (delete_if p m) ≡ unless (p k) (lookup k m)
  unfolding lookup delete_if
  lookup-delete_if p k [] d = refl
  lookup-delete_if p k ((j, w) ∷ m) d =
      ground (arith, lookup-delete_if p k m d.1, lookup-delete_if-none p j m d.0, e.eqb_iff j k)

module _ {ℓ κ μ} {K : Type ℓ} {V : Type κ} ⦃e : Eq K⦄ (P : K × V → Type μ) where
  pub All-insert : (k : K) (v : V) (m : Map K V) → P (k, v) → All P m → All P (insert k v m)
  unfolding insert
  All-insert k v [] h a = (h, tt)
  All-insert k v ((j, w) ∷ m) h a = ground (arith, All-insert k v m h a.1)

  pub All-delete : (k : K) (m : Map K V) → All P m → All P (delete k m)
  unfolding delete
  All-delete k [] a = tt
  All-delete k ((j, w) ∷ m) a = ground (arith, All-delete k m a.1)

  -- A property of every entry holds of a value that is found, under the key that it was found with.
  pub All-lookup : (k : K) (v : V) (m : Map K V) → lookup k m ≡ some v → All P m → P (k, v)
  unfolding lookup
  All-lookup k v [] h a = cc
  All-lookup k v ((j, w) ∷ m) h a = ground (arith, All-lookup k v m, e.eqb_iff j k)
