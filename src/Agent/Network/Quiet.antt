-- ===== src/Agent/Network/Quiet.antt =====
-- The interface and the routes that the commands of pkg/agent/network add and delete, and the code that adds
-- none.
use colnk.Common.{
  ◌≡◌, refl, Bytes, codes, bytes_beq, List, [], ◌∷◌, Option, none, some, Bool, true, false, ◌&&◌,
  if◌then◌else◌, Error, Outcome, done, failed, Io, ◌>>=◌, ◌>>◌, pure, fail_if, Always, Ends,
  >>=-Always,
}
use colnk.Agent.Network.{
  System, attempt, return_error, iptables, add_link, delete_link, route_command, run_command,
  command_succeeds,
}

-- What the kernel holds for the proxy.
pub data Resource : Type 0 where
  link : Resource
  route : Bytes → Resource

abbrev pub commands_beq : List Bytes → List Bytes → Bool
commands_beq [] [] = true
commands_beq (a ∷ rest) (b ∷ more) = bytes_beq a b && commands_beq rest more
commands_beq _ _ = false

-- Whether a command adds a resource.
abbrev pub adds : Bytes → List Bytes → Resource → Bool
adds name command link = commands_beq command (add_link name)
adds name command (route cidr) = commands_beq command (route_command name (codes "add") cidr)

abbrev pub deleted : Bytes → Resource → List Bytes
deleted name link = delete_link name
deleted name (route cidr) = route_command name (codes "del") cidr

module _ {S : Type 0} (holds : S → Resource → Bool) where
  -- All resources that are held are of a set.
  abbrev pub Within : (Resource → Bool) → S → Type 0
  Within p s = (x : Resource) → holds s x ≡ true → p x ≡ true

  -- Code that adds no resource, whether it succeeds or fails.
  pub record IsQuiet {A : Type 0} (m : Io S A) : Type 0 where
    pub quiet : (p : Resource → Bool) (s : S) → Within p s → Always (Within p) (m s)

  pub bind-IsQuiet :
      {A B : Type 0} (m : Io S A) (f : A → Io S B)
      → IsQuiet m
      → ((a : A) → IsQuiet (f a))
      → IsQuiet (m >>= f)
  bind-IsQuiet m f h k = record {
    quiet = λ p s w. >>=-Always (Within p) m f s (h.quiet p s w) (λ a t. (k a).quiet p t);
  }

  pub then-IsQuiet :
      {B : Type 0} (m : Io S (Unit {0})) (k : Io S B) → IsQuiet m → IsQuiet k → IsQuiet (m >> k)
  then-IsQuiet m k h j = bind-IsQuiet m (λ _. k) h (λ _. j)

  pub pure-IsQuiet : {A : Type 0} (a : A) → IsQuiet (pure a)
  pure-IsQuiet a = record { quiet = λ p s w. w }

  pub fail_if-IsQuiet : (b : Bool) (e : Error) → IsQuiet (fail_if b e)
  fail_if-IsQuiet true e = record { quiet = λ p s w. w }
  fail_if-IsQuiet false e = record { quiet = λ p s w. w }

  pub return_error-IsQuiet : (e : Option Error) → IsQuiet (return_error e)
  return_error-IsQuiet none = record { quiet = λ p s w. w }
  return_error-IsQuiet (some e) = record { quiet = λ p s w. w }

  pub if-IsQuiet :
      {A : Type 0} (b : Bool) (m k : Io S A) → IsQuiet m → IsQuiet k → IsQuiet (if b then m else k)
  if-IsQuiet true m k h j = h
  if-IsQuiet false m k h j = j

  attempt_outcome :
      {A : Type 0} (P : S → Type 0) (o : Outcome S A)
      → Always P o
      → Always {A = Option Error} P
          (elim o [ done _ t ↦ done none t | failed e t ↦ done (some e) t ])
  attempt_outcome P (done a t) h = h
  attempt_outcome P (failed e t) h = h

  -- What holds of the state behind code holds behind its attempt.
  pub attempt-Always :
      {A : Type 0} (P : S → Type 0) (m : Io S A) (s : S) → Always P (m s) → Always P (attempt m s)
  unfolding attempt
  attempt-Always P m s h = attempt_outcome P (m s) h

  ended_outcome :
      {A : Type 0} (P Q : S → Type 0) (o : Outcome S A)
      → Always P o
      → Ends {A = Option Error}
          (λ _ t. P t)
          Q
          (elim o [ done _ t ↦ done none t | failed e t ↦ done (some e) t ])
  ended_outcome P Q (done a t) h = h
  ended_outcome P Q (failed e t) h = h

  -- An attempt does not fail.
  pub attempt-Ends :
      {A : Type 0} (P Q : S → Type 0) (m : Io S A) (s : S)
      → Always P (m s)
      → Ends (λ _ t. P t) Q (attempt m s)
  unfolding attempt
  attempt-Ends P Q m s h = ended_outcome P Q (m s) h

  pub attempt-IsQuiet : {A : Type 0} (m : Io S A) → IsQuiet m → IsQuiet (attempt m)
  attempt-IsQuiet m h = record { quiet = λ p s w. attempt-Always (Within p) m s (h.quiet p s w) }

  pub ruleset hush = (
    bind-IsQuiet, then-IsQuiet, pure-IsQuiet, fail_if-IsQuiet, return_error-IsQuiet, if-IsQuiet,
    attempt-IsQuiet,
  )

  module _ (system : System S) (name : Bytes) where
    -- Where what `holds` says is left out of account once its deletion has failed: a command adds at most what
    -- it says, and nothing where it fails; behind a deletion the resource does not count.
    pub record IsHonest : Type 0 where
      pub keeps :
          (command : List Bytes) (s : S) (x : Resource)
          → adds name command x ≡ false
          → Always (λ t. holds t x ≡ true → holds s x ≡ true) (system.command_output command s)
      pub refused :
          (command : List Bytes) (s : S) (x : Resource)
          → Ends
              (λ _ _. Unit)
              (λ t. holds t x ≡ true → holds s x ≡ true)
              (system.command_output command s)
      pub gone :
          (x : Resource) (s : S)
          → Always (λ t. holds t x ≡ false) (system.command_output (deleted name x) s)

    module _ (honest : IsHonest) where
      keeps_all :
          (p : Resource → Bool) (s : S) (o : Outcome S Bytes)
          → ((x : Resource) → Always (λ t. holds t x ≡ true → holds s x ≡ true) o)
          → Within p s
          → Always (Within p) o
      keeps_all p s (done a t) h w = λ x g. w x (h x g)
      keeps_all p s (failed e t) h w = λ x g. w x (h x g)

      pub command_output-IsQuiet :
          (command : List Bytes)
          → adds name command link ≡ false
          → ((cidr : Bytes) → adds name command (route cidr) ≡ false)
          → IsQuiet (system.command_output command)
      command_output-IsQuiet command h k = record {
        quiet = λ p s w. keeps_all p s (system.command_output command s) (go s) w;
      }
        where
          go :
              (s : S) (x : Resource)
              → Always (λ t. holds t x ≡ true → holds s x ≡ true) (system.command_output command s)
          go s link = honest.keeps command s link h
          go s (route cidr) = honest.keeps command s (route cidr) (k cidr)

      pub run_command-IsQuiet :
          (word : Bytes) (rest : List Bytes)
          → adds name (word ∷ rest) link ≡ false
          → ((cidr : Bytes) → adds name (word ∷ rest) (route cidr) ≡ false)
          → IsQuiet (run_command system (word ∷ rest))
      unfolding run_command
      run_command-IsQuiet word rest h k =
          bind-IsQuiet (system.command_output (word ∷ rest)) (λ _. pure tt)
            (command_output-IsQuiet (word ∷ rest) h k) (λ _. pure-IsQuiet tt)

      succeeds_outcome :
          (P : S → Type 0) (o : Outcome S Bytes)
          → Always P o
          → Always P (elim o [ done _ t ↦ done true t | failed _ t ↦ done false t ])
      succeeds_outcome P (done a t) h = h
      succeeds_outcome P (failed e t) h = h

      pub command_succeeds-IsQuiet :
          (rest : List Bytes) → IsQuiet (command_succeeds system (iptables rest))
      unfolding command_succeeds
      command_succeeds-IsQuiet rest = record {
        quiet = λ p s w.
            succeeds_outcome (Within p) (system.command_output (iptables rest) s)
              ((command_output-IsQuiet (iptables rest) refl (λ _. refl)).quiet p s w);
      }

      pub iptables-IsQuiet : (rest : List Bytes) → IsQuiet (run_command system (iptables rest))
      iptables-IsQuiet rest = run_command-IsQuiet (codes "iptables") _ refl (λ _. refl)

      pub delete_link-IsQuiet : IsQuiet (run_command system (delete_link name))
      delete_link-IsQuiet = run_command-IsQuiet (codes "ip") _ refl (λ _. refl)

      pub delete_route-IsQuiet :
          (cidr : Bytes) → IsQuiet (run_command system (route_command name (codes "del") cidr))
      delete_route-IsQuiet cidr = run_command-IsQuiet (codes "ip") _ refl (λ _. refl)

      pub ruleset commands = (command_succeeds-IsQuiet, iptables-IsQuiet, delete_link-IsQuiet)
