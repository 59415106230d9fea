-- ===== src/Agent/Network/Jumps.antt =====
-- cleanupFirewall of pkg/agent/network/firewall_linux.go: the loop over the rules that lead to the chain.
use colnk.Common.{
  ℕ, zero, suc, ◌≤◌, ◌<◌, ◌≡◌, refl, Bytes, codes, List, [], ◌∷◌, Option, none, some, Bool, true,
  false, if◌then◌else◌, Error, Outcome, done, failed, Io, ◌>>=◌, pure, Always, Ends, >>=-Ends,
  arith,
}
use colnk.Agent.Network.{System, attempt, iptables, run_command, command_succeeds, delete_jumps}

abbrev jump_rule : Bytes → List Bytes
jump_rule flag = iptables (flag ∷ codes "OUTPUT" ∷ codes "-j" ∷ codes "COLNK" ∷ [])

-- No state.
abbrev Never : {S : Type 0} → S → Type 0
Never _ = true ≡ false

module _ {S : Type 0} (system : System S) where
  -- What iptables documents of the rules of OUTPUT that lead to the chain: -C adds none, and -D deletes one where
  -- it succeeds and adds none where it fails.
  pub record IsCounted : Type 0 where
    pub check_adds_none :
        (s : S)
        → Always
            (λ t. system.jumps t ≤ system.jumps s)
            (system.command_output (jump_rule (codes "-C")) s)
    pub deletes_one :
        (s : S)
        → Ends
            (λ _ t. system.jumps t < system.jumps s)
            (λ t. system.jumps t ≤ system.jumps s)
            (system.command_output (jump_rule (codes "-D")) s)

  -- What an attempt says of the state behind it: fewer rules where it succeeds.
  abbrev Tried : S → Option Error → S → Type 0
  Tried s none t = system.jumps t < system.jumps s
  Tried s (some e) t = system.jumps t ≤ system.jumps s

  AtMost : S → S → Type 0
  AtMost s t = system.jumps t ≤ system.jumps s

  done_outcome :
      {A : Type 0} (P : A → S → Type 0) (o : Outcome S A)
      → Ends P Never o
      → (a : A) × (t : S) × (o ≡ done a t) × P a t
  done_outcome P (done a t) h = (a, t, refl, h)
  done_outcome P (failed e t) h = ground (arith, h)

  module _ (counted : IsCounted) where
    checked :
        (s : S)
        → Ends (λ _ t. AtMost s t) Never (command_succeeds system (jump_rule (codes "-C")) s)
    unfolding command_succeeds
    checked s = go (system.command_output (jump_rule (codes "-C")) s) (counted.check_adds_none s)
      where
        go :
            (o : Outcome S Bytes)
            → Always (λ t. system.jumps t ≤ system.jumps s) o
            → Ends
                (λ _ t. AtMost s t)
                Never
                (elim o as (λ _. Outcome S Bool) [
                  | done _ t ↦ done true t
                  | failed _ t ↦ done false t
                ])
        go (done a t) h = unfold AtMost in h
        go (failed e t) h = unfold AtMost in h

    deleted :
        (s : S) → Ends (Tried s) Never (attempt (run_command system (jump_rule (codes "-D"))) s)
    unfolding attempt run_command
    deleted s = go (system.command_output (jump_rule (codes "-D")) s) (counted.deletes_one s)
      where
        go :
            (o : Outcome S Bytes)
            → Ends (λ _ t. system.jumps t < system.jumps s) (λ t. system.jumps t ≤ system.jumps s) o
            → Ends
                (Tried s)
                Never
                (elim (elim o as (λ _. Outcome S (Unit {0})) [
                  | done a t ↦ done tt t
                  | failed e t ↦ failed e t
                ])
                  as (λ _. Outcome S (Option Error)) [
                    | done _ t ↦ done none t
                    | failed e t ↦ done (some e) t
                  ])
        go (done a t) h = h
        go (failed e t) h = h

    -- A round of the loop, by what the next rounds do.
    module _ (rest : Io S (Option Error)) (fuel : ℕ)
        (again : (u : S) → system.jumps u < fuel → Ends (λ _. AtMost u) Never (rest u)) where
      next_round :
          (s t : S)
          → system.jumps s < suc fuel
          → AtMost s t
          → (e : Option Error) (u : S) → Tried t e u
          → Ends
              (λ _. AtMost s)
              Never
              ((elim e as (λ _. Io S (Option Error)) [ none ↦ rest | some x ↦ pure (some x) ]) u)
      unfolding AtMost
      next_round s t g k none u l = below (rest u) (again u (omega (arith, g, k, l)))
        where
          below :
              (o : Outcome S (Option Error))
              → Ends (λ _ v. system.jumps v ≤ system.jumps u) Never o
              → Ends (λ _ v. system.jumps v ≤ system.jumps s) Never o
          below (done a v) h = omega (arith, h, k, l)
          below (failed e v) h = h
      next_round s t g k (some x) u l = omega (arith, k, l)

      round :
          (s : S)
          → system.jumps s < suc fuel
          → (there : Bool) (t : S) → AtMost s t
          → Ends
              (λ _. AtMost s)
              Never
              ((if there
                  then (attempt (run_command system (jump_rule (codes "-D"))) >>= λ e.
                      elim e as (λ _. Io S (Option Error)) [ none ↦ rest | some x ↦ pure (some x) ])
                  else pure none)
                t)
      round s h false t g = g
      round s h true t g =
          >>=-Ends (Tried t) (λ _. AtMost s) Never
            (attempt (run_command system (jump_rule (codes "-D")))) _ t (deleted t)
            (next_round s t h g)

    delete_jumps-Ends :
        (fuel : ℕ) (s : S)
        → system.jumps s < fuel
        → Ends (λ _. AtMost s) Never (delete_jumps system fuel s)
    unfolding delete_jumps
    delete_jumps-Ends zero s h = ground (arith, h)
    delete_jumps-Ends (suc fuel) s h =
        >>=-Ends (λ _. AtMost s) (λ _. AtMost s) Never
          (command_succeeds system (jump_rule (codes "-C"))) _ s (checked s)
          (round (delete_jumps system fuel) fuel (delete_jumps-Ends fuel) s h)

    -- With more rounds than there are rules that lead to the chain, the loop of cleanupFirewall ends by itself,
    -- and leaves no more of them than there were, if iptables deletes a rule where its -D succeeds and its -C and
    -- a -D that fails add none.
    pub delete_jumps-done :
        (fuel : ℕ) (s : S)
        → system.jumps s < fuel
        → (error : Option Error) × (t : S) × (delete_jumps system fuel s ≡ done error t)
          × (system.jumps t ≤ system.jumps s)
    unfolding AtMost
    delete_jumps-done fuel s h =
        done_outcome (λ _. AtMost s) (delete_jumps system fuel s) (delete_jumps-Ends fuel s h)
