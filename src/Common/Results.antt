-- ===== src/Common/Results.antt =====
-- Go's `error` values as one data type, results of pure code, and the monad of code that changes a
-- state and may fail. `fmt.Errorf("…: %w", err)` keeps the error that it wraps, so it is not modelled.
use Prim.Native.Nat.{ℕ}
use mathlib.Core.Path.{◌≡◌, refl}
use mathlib.Core.Logic.{◌⊎◌, inl, inr}
use mathlib.Core.Bool.{Bool, true, false}
use colnk.Common.Texts.{Bytes}
use mathlib.Core.Option.{Option, none, some}
use colnk.Common.Int.{ℤ}

pub data Error : Type 0 where
  marshal_failed decode_failed write_failed read_failed : Error
  header_too_large payload_too_large entries_too_large entry_too_large : Error
  compress_failed decompress_failed raw_length_mismatch : Error
  payload_needs_encoding unsupported_encoding : Error
  invalid_header_length : ℕ → Error
  invalid_payload_length invalid_raw_length : ℤ → Error
  errno : ℕ → Error
  remote_error : ℕ → Bytes → Error
  unsupported_major invalid_minor : ℤ → Error
  api_key_required invalid_cidr invalid_suffix : Error
  unauthorized session_active canceled : Error
  interface_not_owned : Bytes → Error
  invalid_endpoint dial_failed rejected incompatible_version unsupported_policy : Error
  session_failed no_rounds_left : Error
  message : Bytes → Error
  permanent : Error → Error

-- A Go result `(value, err)` whose value counts only without an error.
pub data Result {ℓ} (V : Type ℓ) : Type ℓ where
  err : Error → Result V
  ok : V → Result V

abbrev pub bind {ℓ κ} : {A : Type ℓ} {B : Type κ} → Result A → (A → Result B) → Result B
bind (ok a) f = f a
bind (err e) f = err e

-- The error of a call that has no other result to give.
abbrev pub or_error {ℓ} : {A : Type ℓ} → Option A → Error → Result A
or_error none e = err e
or_error (some a) e = ok a

-- The result of code that changes a state of type `S`: the state is kept when it fails.
pub data Outcome {ℓ κ} (S : Type ℓ) (A : Type κ) : Type (ℓ ⊔ κ) where
  done : A → S → Outcome S A
  failed : Error → S → Outcome S A

abbrev pub Io {ℓ κ} : Type ℓ → Type κ → Type (ℓ ⊔ κ)
Io S A = S → Outcome S A

infixl 5 ◌>>=◌ ◌>>◌
abbrev pub ◌>>=◌ {ℓ κ μ} : {S : Type ℓ} {A : Type κ} {B : Type μ} → Io S A → (A → Io S B) → Io S B
◌>>=◌ m f s = elim (m s) [ done a s' ↦ f a s' | failed e s' ↦ failed e s' ]

abbrev pub ◌>>◌ {ℓ κ} : {S : Type ℓ} {B : Type κ} → Io S (Unit {0}) → Io S B → Io S B
m >> k = m >>= λ _. k

abbrev pub pure {ℓ κ} : {S : Type ℓ} {A : Type κ} → A → Io S A
pure a s = done a s

abbrev pub fail {ℓ κ} : {S : Type ℓ} {A : Type κ} → Error → Io S A
fail e s = failed e s

-- A pure result as a step that leaves the state alone.
abbrev pub lift {ℓ κ} : {S : Type ℓ} {A : Type κ} → Result A → Io S A
lift (ok a) s = done a s
lift (err e) s = failed e s

-- `if bad { return err }`
abbrev pub fail_if {ℓ} : {S : Type ℓ} → Bool → Error → Io S (Unit {0})
fail_if true e s = failed e s
fail_if false e s = done tt s

-- A chain that succeeds has succeeded at its first link.
pub bind-eq-ok {ℓ κ} :
    {A : Type ℓ} {B : Type κ} (first : Result A) (rest : A → Result B) {last : B}
    → bind first rest ≡ ok last
    → (value : A) × (first ≡ ok value) × (rest value ≡ ok last)
bind-eq-ok (err x) rest succeeded = cc
bind-eq-ok (ok value) rest succeeded = (value, refl, succeeded)

-- Inversion of code that succeeded.
module _ {ℓ κ μ} {S : Type ℓ} {A : Type κ} {B : Type μ} where
  bind_outcome-eq-done :
      (o : Outcome S A) (f : A → Io S B) {b : B} {t : S}
      → elim o [ done a s ↦ f a s | failed e s ↦ failed e s ] ≡ done b t
      → (a : A) × (s : S) × (o ≡ done a s) × (f a s ≡ done b t)
  bind_outcome-eq-done (done a s) f h = (a, s, refl, h)
  bind_outcome-eq-done (failed e s) f h = cc

  pub >>=-eq-done :
      (m : Io S A) (f : A → Io S B) (s : S) {b : B} {t : S}
      → (m >>= f) s ≡ done b t
      → (a : A) × (s' : S) × (m s ≡ done a s') × (f a s' ≡ done b t)
  >>=-eq-done m f s h = bind_outcome-eq-done (m s) f h

-- A chain behind a first part that succeeded.
module _ {ℓ κ μ} {S : Type ℓ} {A : Type κ} {B : Type μ} where
  bind_outcome-done :
      (o : Outcome S A) (f : A → Io S B) {a : A} {t : S}
      → o ≡ done a t
      → elim o [ done b s ↦ f b s | failed e s ↦ failed e s ] ≡ f a t
  bind_outcome-done (done b s) f h = cc
  bind_outcome-done (failed e s) f h = cc

  pub >>=-done :
      (m : Io S A) (f : A → Io S B) (s : S) {a : A} {t : S} → m s ≡ done a t → (m >>= f) s ≡ f a t
  >>=-done m f s h = bind_outcome-done (m s) f h

pub lift-eq-done {ℓ κ} :
    {S : Type ℓ} {A : Type κ} (r : Result A) (s : S) {a : A} {t : S}
    → lift r s ≡ done a t
    → (r ≡ ok a) × (s ≡ t)
lift-eq-done (ok a) s h = (cc, cc)
lift-eq-done (err e) s h = cc

pub fail_if-eq-done {ℓ} :
    {S : Type ℓ} (b : Bool) (e : Error) (s : S) {u : Unit {0}} {t : S}
    → fail_if b e s ≡ done u t
    → (b ≡ false) × (s ≡ t)
fail_if-eq-done true e s h = cc
fail_if-eq-done false e s h = (refl, cc)

pub or_error-eq-ok {ℓ} :
    {A : Type ℓ} (o : Option A) (e : Error) {a : A} → or_error o e ≡ ok a → o ≡ some a
or_error-eq-ok none e h = cc
or_error-eq-ok (some a) e h = cc

pub Result-cases {ℓ} :
    {A : Type ℓ} (r : Result A) → ((a : A) × (r ≡ ok a)) ⊎ ((e : Error) × (r ≡ err e))
Result-cases (ok a) = inl (a, refl)
Result-cases (err e) = inr (e, refl)
