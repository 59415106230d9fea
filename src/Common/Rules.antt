-- ===== src/Common/Rules.antt =====
-- Rules for code in the monad `Io`: what holds of the states that it leaves, whether it succeeds or fails.
use mathlib.Core.Path.{◌≡◌, refl}
use colnk.Common.Results.{Outcome, done, failed, Io, ◌>>=◌}

-- A property of the state that code leaves, whether it succeeds or not.
abbrev pub Always {ℓ κ μ} : {S : Type ℓ} {A : Type κ} → (S → Type μ) → Outcome S A → Type μ
Always P (done a s) = P s
Always P (failed e s) = P s

pub Always-map {ℓ κ μ ν} :
    {S : Type ℓ} {A : Type κ} (P : S → Type μ) (Q : S → Type ν)
    → ((s : S) → P s → Q s)
    → (o : Outcome S A) → Always P o
    → Always Q o
Always-map P Q f (done a s) h = f s h
Always-map P Q f (failed e s) h = f s h

module _ {ℓ κ μ ν} {S : Type ℓ} {A : Type κ} {B : Type μ} (P : S → Type ν) where
  bind_outcome-Always :
      (o : Outcome S A) (f : A → Io S B)
      → Always P o
      → ((a : A) (s : S) → P s → Always P (f a s))
      → Always P (elim o [ done a s ↦ f a s | failed e s ↦ failed e s ])
  bind_outcome-Always (done a s) f h k = k a s h
  bind_outcome-Always (failed e s) f h k = h

  pub >>=-Always :
      (m : Io S A) (f : A → Io S B) (s : S)
      → Always P (m s)
      → ((a : A) (t : S) → P t → Always P (f a t))
      → Always P ((m >>= f) s)
  >>=-Always m f s h k = bind_outcome-Always (m s) f h k

-- A property of what code returns and the state that it leaves, where it succeeds.
abbrev pub OnDone {ℓ κ μ} : {S : Type ℓ} {A : Type κ} → (A → S → Type μ) → Outcome S A → Type μ
OnDone P (done a s) = P a s
OnDone P (failed e s) = Unit

module _ {ℓ κ μ ν ξ} {S : Type ℓ} {A : Type κ} {B : Type μ} (Q : S → Type ν) where
  through_outcome-Always :
      (P : S → Type ξ) (o : Outcome S A) (f : A → Io S B)
      → Always Q o
      → ((s : S) → Q s → P s)
      → ((a : A) (s : S) → Q s → Always P (f a s))
      → Always P (elim o [ done a s ↦ f a s | failed e s ↦ failed e s ])
  through_outcome-Always P (done a s) f h g k = k a s h
  through_outcome-Always P (failed e s) f h g k = g s h

  -- The first part keeps `Q`, which is enough for `P` where it fails.
  pub >>=-Always_through :
      (P : S → Type ξ) (m : Io S A) (f : A → Io S B) (s : S)
      → Always Q (m s)
      → ((t : S) → Q t → P t)
      → ((a : A) (t : S) → Q t → Always P (f a t))
      → Always P ((m >>= f) s)
  >>=-Always_through P m f s h g k = through_outcome-Always P (m s) f h g k

  through_outcome-OnDone :
      (P : B → S → Type ξ) (o : Outcome S A) (f : A → Io S B)
      → Always Q o
      → ((a : A) (s : S) → Q s → OnDone P (f a s))
      → OnDone P (elim o [ done a s ↦ f a s | failed e s ↦ failed e s ])
  through_outcome-OnDone P (done a s) f h k = k a s h
  through_outcome-OnDone P (failed e s) f h k = tt

  pub >>=-OnDone :
      (P : B → S → Type ξ) (m : Io S A) (f : A → Io S B) (s : S)
      → Always Q (m s)
      → ((a : A) (t : S) → Q t → OnDone P (f a t))
      → OnDone P ((m >>= f) s)
  >>=-OnDone P m f s h k = through_outcome-OnDone P (m s) f h k

pub OnDone-map {ℓ κ μ ν} :
    {S : Type ℓ} {A : Type κ} (P : A → S → Type μ) (Q : A → S → Type ν)
    → ((a : A) (s : S) → P a s → Q a s)
    → (o : Outcome S A) → OnDone P o
    → OnDone Q o
OnDone-map P Q f (done a s) h = f a s h
OnDone-map P Q f (failed e s) h = tt

module _ {ℓ κ μ ν ξ υ} {S : Type ℓ} {A : Type κ} {B : Type μ} (P : S → Type ν) (Q : A → S → Type ξ)
    (O : S → Type υ) where
  both_outcome-Always :
      (o : Outcome S A) (f : A → Io S B)
      → Always P o
      → OnDone Q o
      → ((s : S) → P s → O s)
      → ((a : A) (s : S) → P s → Q a s → Always O (f a s))
      → Always O (elim o [ done a s ↦ f a s | failed e s ↦ failed e s ])
  both_outcome-Always (done a s) f h q g k = k a s h q
  both_outcome-Always (failed e s) f h q g k = g s h

  -- The first part keeps `P` and, where it succeeds, `Q`; the rest turns both into `O`.
  pub >>=-Always_both :
      (m : Io S A) (f : A → Io S B) (s : S)
      → Always P (m s)
      → OnDone Q (m s)
      → ((t : S) → P t → O t)
      → ((a : A) (t : S) → P t → Q a t → Always O (f a t))
      → Always O ((m >>= f) s)
  >>=-Always_both m f s h q g k = both_outcome-Always (m s) f h q g k

  both_outcome-OnDone :
      (P' : B → S → Type υ) (o : Outcome S A) (f : A → Io S B)
      → Always P o
      → OnDone Q o
      → ((a : A) (s : S) → P s → Q a s → OnDone P' (f a s))
      → OnDone P' (elim o [ done a s ↦ f a s | failed e s ↦ failed e s ])
  both_outcome-OnDone P' (done a s) f h q k = k a s h q
  both_outcome-OnDone P' (failed e s) f h q k = tt

  pub >>=-OnDone_both :
      (P' : B → S → Type υ) (m : Io S A) (f : A → Io S B) (s : S)
      → Always P (m s)
      → OnDone Q (m s)
      → ((a : A) (t : S) → P t → Q a t → OnDone P' (f a t))
      → OnDone P' ((m >>= f) s)
  >>=-OnDone_both P' m f s h q k = both_outcome-OnDone P' (m s) f h q k

pub Always-OnDone {ℓ κ μ} :
    {S : Type ℓ} {A : Type κ} (P : S → Type μ) (o : Outcome S A)
    → Always P o
    → OnDone (λ _ s. P s) o
Always-OnDone P (done a s) h = h
Always-OnDone P (failed e s) h = tt

-- What holds of the state behind code that succeeds, and behind code that fails.
abbrev pub Ends {ℓ κ μ} :
    {S : Type ℓ} {A : Type κ} → (A → S → Type μ) → (S → Type μ) → Outcome S A → Type μ
Ends P Q (done a s) = P a s
Ends P Q (failed e s) = Q s

module _ {ℓ κ μ ν} {S : Type ℓ} {A : Type κ} {B : Type μ} (M : A → S → Type ν) (P : B → S → Type ν)
    (Q : S → Type ν) where
  bind_outcome-Ends :
      (o : Outcome S A) (f : A → Io S B)
      → Ends M Q o
      → ((a : A) (s : S) → M a s → Ends P Q (f a s))
      → Ends P Q (elim o [ done a s ↦ f a s | failed e s ↦ failed e s ])
  bind_outcome-Ends (done a s) f h k = k a s h
  bind_outcome-Ends (failed e s) f h k = h

  -- The rule for two parts in turn.
  pub >>=-Ends :
      (m : Io S A) (f : A → Io S B) (s : S)
      → Ends M Q (m s)
      → ((a : A) (t : S) → M a t → Ends P Q (f a t))
      → Ends P Q ((m >>= f) s)
  >>=-Ends m f s h k = bind_outcome-Ends (m s) f h k

pub Ends-intro {ℓ κ μ} :
    {S : Type ℓ} {A : Type κ} (P : A → S → Type μ) (Q : S → Type μ) (o : Outcome S A)
    → OnDone P o
    → Always Q o
    → Ends P Q o
Ends-intro P Q (done a s) h g = h
Ends-intro P Q (failed e s) h g = g

pub Ends-Always {ℓ κ μ} :
    {S : Type ℓ} {A : Type κ} (Q : S → Type μ) (o : Outcome S A)
    → Ends (λ _ s. Q s) Q o
    → Always Q o
Ends-Always Q (done a s) h = h
Ends-Always Q (failed e s) h = h

pub Always-Ends {ℓ κ μ} :
    {S : Type ℓ} {A : Type κ} (Q : S → Type μ) (o : Outcome S A)
    → Always Q o
    → Ends (λ _ s. Q s) Q o
Always-Ends Q (done a s) h = h
Always-Ends Q (failed e s) h = h

module _ {ℓ κ μ} {S : Type ℓ} {A : Type κ} {B : Type μ} where
  bind_outcome-eq :
      (o : Outcome S A) (f g : A → Io S B)
      → ((a : A) (s : S) → f a s ≡ g a s)
      → elim o [ done a s ↦ f a s | failed e s ↦ failed e s ]
        ≡ elim o [ done a s ↦ g a s | failed e s ↦ failed e s ]
  bind_outcome-eq (done a s) f g h = h a s
  bind_outcome-eq (failed e s) f g h = refl

  pub >>=-eq :
      (m : Io S A) (f g : A → Io S B) (s : S)
      → ((a : A) (t : S) → f a t ≡ g a t)
      → (m >>= f) s ≡ (m >>= g) s
  >>=-eq m f g s h = bind_outcome-eq (m s) f g h

pub Ends-map {ℓ κ μ} :
    {S : Type ℓ} {A : Type κ} (P P' : A → S → Type μ) (Q Q' : S → Type μ)
    → ((a : A) (s : S) → P a s → P' a s)
    → ((s : S) → Q s → Q' s)
    → (o : Outcome S A) → Ends P Q o
    → Ends P' Q' o
Ends-map P P' Q Q' f g (done a s) h = f a s h
Ends-map P P' Q Q' f g (failed e s) h = g s h

pub Ends-OnDone {ℓ κ μ} :
    {S : Type ℓ} {A : Type κ} (P : A → S → Type μ) (Q : S → Type μ) (o : Outcome S A)
    → Ends P Q o
    → OnDone P o
Ends-OnDone P Q (done a s) h = h
Ends-OnDone P Q (failed e s) h = tt

module _ {ℓ κ μ ν ξ} {S : Type ℓ} {A : Type κ} {B : Type μ} (Q : A → S → Type ν)
    (P : B → S → Type ξ) where
  chain_outcome-OnDone :
      (o : Outcome S A) (f : A → Io S B)
      → OnDone Q o
      → ((a : A) (s : S) → Q a s → OnDone P (f a s))
      → OnDone P (elim o [ done a s ↦ f a s | failed e s ↦ failed e s ])
  chain_outcome-OnDone (done a s) f h k = k a s h
  chain_outcome-OnDone (failed e s) f h k = tt

  -- Where the first part says what it returns.
  pub >>=-OnDone_chain :
      (m : Io S A) (f : A → Io S B) (s : S)
      → OnDone Q (m s)
      → ((a : A) (t : S) → Q a t → OnDone P (f a t))
      → OnDone P ((m >>= f) s)
  >>=-OnDone_chain m f s h k = chain_outcome-OnDone (m s) f h k
