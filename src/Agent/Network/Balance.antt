-- ===== src/Agent/Network/Balance.antt =====
-- What is held behind start and stop of pkg/agent/network/network_linux.go.
use mathlib.Core.List.{reverse-cons}
use colnk.Common.{
  ◌≡◌, refl, sym, ap, ◌∙◌, Bytes, codes, bytes_beq, bytes_beq_iff, List, [], ◌∷◌, ◌++◌, reverse,
  Bool, true, false, not, ◌&&◌, ◌||◌, any, Bool-cases, inl, inr, ℤ, Outcome, done, failed, Always,
  Ends, arith,
}
use colnk.Agent.Network.{System, add_link, route_command}
use colnk.Agent.Network.Quiet.{
  Resource, link, route, adds, deleted, Within, IsQuiet, IsHonest, command_output-IsQuiet,
}

unfoldable pub same : Resource → Resource → Bool
same link link = true
same (route a) (route b) = bytes_beq a b
same _ _ = false

abbrev pub added : Bytes → Resource → List Bytes
added name link = add_link name
added name (route cidr) = route_command name (codes "add") cidr

adds-added : (name : Bytes) (x y : Resource) → same x y ≡ false → adds name (added name x) y ≡ false
unfolding same
adds-added name link link h = ground arith
adds-added name link (route b) h = refl
adds-added name (route a) link h = refl
adds-added name (route a) (route b) h = rw (h) refl

same-eq : (x y : Resource) → same x y ≡ true → x ≡ y
unfolding same
same-eq link link h = refl
same-eq link (route b) h = ground arith
same-eq (route a) link h = ground arith
same-eq (route a) (route b) h = ap route ((bytes_beq_iff a b).0 h)

-- The routes of a list.
unfoldable pub listed : List Bytes → Resource → Bool
listed routes link = false
listed routes (route cidr) = any (λ r. bytes_beq r cidr) routes

any-append : (f : Bytes → Bool) (xs ys : List Bytes) → any f (xs ++ ys) ≡ (any f xs || any f ys)
unfolding any
any-append f [] ys = refl
any-append f (x ∷ xs) ys = ground (arith, any-append f xs ys)

any-reverse : (f : Bytes → Bool) (xs : List Bytes) → any f (reverse xs) ≡ any f xs
unfolding any
any-reverse f [] = refl
any-reverse f (x ∷ xs) =
    ap (any f) (reverse-cons x xs)
    ∙ any-append f (reverse xs) (x ∷ [])
    ∙ ground (arith, any-reverse f xs)

pub listed-reverse :
    (routes : List Bytes) (x : Resource) → listed (reverse routes) x ≡ listed routes x
unfolding listed
listed-reverse routes link = refl
listed-reverse routes (route cidr) = any-reverse (λ r. bytes_beq r cidr) routes

-- A new route at the end of the list.
pub listed-append :
    (routes : List Bytes) (cidr : Bytes) (x : Resource)
    → (listed routes x || same (route cidr) x) ≡ true
    → listed (routes ++ cidr ∷ []) x ≡ true
unfolding listed same any
listed-append routes cidr link h = h
listed-append routes cidr (route b) h =
    ground (arith, any-append (λ r. bytes_beq r b) routes (cidr ∷ []))

module _ {S : Type 0} (holds : S → Resource → Bool) (system : System S) (name : Bytes) (port : ℤ)
    (honest : IsHonest holds system name) where
  pub command_adding :
      (p : Resource → Bool) (x : Resource) (s : S)
      → Within holds p s
      → Ends
          (λ _ t. Within holds (λ y. p y || same x y) t)
          (λ t. Within holds p t)
          (system.command_output (added name x) s)
  command_adding p x s w =
      go (system.command_output (added name x) s) (λ y. honest.keeps (added name x) s y)
        (λ y. honest.refused (added name x) s y)
    where
      go :
          (o : Outcome S Bytes)
          → ((y : Resource)
              → adds name (added name x) y ≡ false
              → Always (λ t. holds t y ≡ true → holds s y ≡ true) o)
          → ((y : Resource) → Ends (λ _ _. Unit) (λ t. holds t y ≡ true → holds s y ≡ true) o)
          → Ends (λ _ t. Within holds (λ y. p y || same x y) t) (λ t. Within holds p t) o
      go (done a t) k r = λ y h. elim (Bool-cases (same x y)) [
        | inl e ↦ ground (arith, e)
        | inr e ↦ ground (arith, w y (k y (adds-added name x y e) h))
      ]
      go (failed e t) k r = λ y h. w y (r y h)

  deleted-IsQuiet : (x : Resource) → IsQuiet holds (system.command_output (deleted name x))
  deleted-IsQuiet link = command_output-IsQuiet holds system name honest _ refl (λ _. refl)
  deleted-IsQuiet (route cidr) = command_output-IsQuiet holds system name honest _ refl (λ _. refl)

  pub command_deleting :
      (p : Resource → Bool) (x : Resource) (s : S)
      → Within holds p s
      → Always (Within holds λ y. p y && not (same x y)) (system.command_output (deleted name x) s)
  command_deleting p x s w =
      go (system.command_output (deleted name x) s) ((deleted-IsQuiet x).quiet p s w)
        (honest.gone x s)
    where
      left :
          (t : S)
          → Within holds p t
          → holds t x ≡ false
          → Within holds (λ y. p y && not (same x y)) t
      left t k g y h = elim (Bool-cases (same x y)) [
        | inl e ↦ ground (arith, h, sym (ap (holds t) (same-eq x y e)), g)
        | inr e ↦ ground (arith, e, k y h)
      ]

      go :
          (o : Outcome S Bytes)
          → Always (Within holds p) o
          → Always (λ t. holds t x ≡ false) o
          → Always (Within holds λ y. p y && not (same x y)) o
      go (done a t) k g = left t k g
      go (failed e t) k g = left t k g
