-- ===== src/Agent/Network/Logged.antt =====
-- A system that also notes which commands failed. pkg/agent/network runs its commands on it as on any other.
use colnk.Common.{
  ◌≡◌, refl, ◌⊎◌, inl, inr, Bytes, bytes_beq_iff, List, [], ◌∷◌, Bool, true, false, not, ◌&&◌, any,
  Bool-cases, Outcome, done, failed, Always, OnDone, Ends, arith,
}
use colnk.Agent.Network.{System}
use colnk.Agent.Network.Quiet.{Resource, commands_beq, adds, deleted, Within, IsHonest}

unfoldable pub note_failure :
    {S : Type 0}
    → List Bytes
    → List (List Bytes)
    → Outcome S Bytes
    → Outcome (S × List (List Bytes)) Bytes
note_failure command log (done output t) = done output (t, log)
note_failure command log (failed e t) = failed e (t, command ∷ log)

abbrev pub logged : {S : Type 0} → System S → System (S × List (List Bytes))
logged system = record {
  command_output = λ command s. note_failure command s.1 (system.command_output command s.0);
  has_interface = λ name s. system.has_interface name s.0;
  jumps = λ s. system.jumps s.0;
}

-- Whether the deletion of a resource has failed.
unfoldable pub refused : Bytes → List (List Bytes) → Resource → Bool
unfolding any
refused name log x = any (commands_beq (deleted name x)) log

commands_beq_refl : (command : List Bytes) → commands_beq command command ≡ true
commands_beq_refl [] = refl
commands_beq_refl (word ∷ rest) =
    ground (arith, (bytes_beq_iff word word).1 refl, commands_beq_refl rest)

module _ {S : Type 0} (holds : S → Resource → Bool) (system : System S) (name : Bytes) where
  -- What `ip` documents: a command adds at most what it says, and nothing where it fails; a resource that was
  -- deleted is not held.
  pub record IsDocumented : Type 0 where
    pub adds_only :
        (command : List Bytes) (s : S) (x : Resource)
        → adds name command x ≡ false
        → Always (λ t. holds t x ≡ true → holds s x ≡ true) (system.command_output command s)
    pub adds_nothing :
        (command : List Bytes) (s : S) (x : Resource)
        → Ends
            (λ _ _. Unit)
            (λ t. holds t x ≡ true → holds s x ≡ true)
            (system.command_output command s)
    pub gone :
        (x : Resource) (s : S)
        → OnDone (λ _ t. holds t x ≡ false) (system.command_output (deleted name x) s)

  -- Held, and not because its deletion failed.
  abbrev pub holds_unrefused : S × List (List Bytes) → Resource → Bool
  holds_unrefused s x = holds s.0 x && not (refused name s.1 x)

  -- What is held was held at the start, or its deletion has failed.
  abbrev pub IsRestored : S → S × List (List Bytes) → Type 0
  IsRestored s t =
      (x : Resource) → holds t.0 x ≡ true → (holds s x ≡ true) ⊎ (refused name t.1 x ≡ true)

  pub Within-IsRestored :
      (s : S) (t : S × List (List Bytes))
      → Within holds_unrefused (holds_unrefused (s, [])) t
      → IsRestored s t
  Within-IsRestored s t w x h = elim (Bool-cases (refused name t.1 x)) [
    | inl e ↦ inr e
    | inr e ↦ inl (ground (arith, w x (ground (arith, h, e))))
  ]

  module _ (documented : IsDocumented) where
    logged_keeps :
        (command : List Bytes) (s : S) (log : List (List Bytes)) (x : Resource)
        (o : Outcome S Bytes)
        → Always (λ t. holds t x ≡ true → holds s x ≡ true) o
        → Always
            (λ t. holds_unrefused t x ≡ true → holds_unrefused (s, log) x ≡ true)
            (note_failure command log o)
    unfolding note_failure refused any
    logged_keeps command s log x (done a t) h = λ g. ground (arith, g, h)
    logged_keeps command s log x (failed e t) h = λ g. ground (arith, g, h)

    logged_refused :
        (command : List Bytes) (s : S) (log : List (List Bytes)) (x : Resource)
        (o : Outcome S Bytes)
        → Ends (λ _ _. Unit) (λ t. holds t x ≡ true → holds s x ≡ true) o
        → Ends
            (λ _ _. Unit)
            (λ t. holds_unrefused t x ≡ true → holds_unrefused (s, log) x ≡ true)
            (note_failure command log o)
    unfolding note_failure refused any
    logged_refused command s log x (done a t) h = tt
    logged_refused command s log x (failed e t) h = λ g. ground (arith, g, h)

    logged_gone :
        (log : List (List Bytes)) (x : Resource) (o : Outcome S Bytes)
        → OnDone (λ _ t. holds t x ≡ false) o
        → Always (λ t. holds_unrefused t x ≡ false) (note_failure (deleted name x) log o)
    unfolding note_failure refused any
    logged_gone log x (done a t) h = ground (arith, h)
    logged_gone log x (failed e t) h = rw (commands_beq_refl (deleted name x)) (ground arith)

    pub logged-IsHonest : IsHonest holds_unrefused (logged system) name
    logged-IsHonest = record {
      keeps = λ command s x h.
          logged_keeps command s.0 s.1 x (system.command_output command s.0)
            (documented.adds_only command s.0 x h);
      refused = λ command s x.
          logged_refused command s.0 s.1 x (system.command_output command s.0)
            (documented.adds_nothing command s.0 x);
      gone = λ x s.
          logged_gone s.1 x (system.command_output (deleted name x) s.0) (documented.gone x s.0);
    }
