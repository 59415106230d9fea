-- ===== src/Agent/Network/Silence.antt =====
-- The code of pkg/agent/network/firewall_linux.go that adds neither an interface nor a route.
use colnk.Common.{
  ℕ, zero, suc, ◌+◌, nat_beq, refl, Bytes, codes, List, [], ◌∷◌, Option, none, some, Bool, true,
  false, if◌then◌else◌, ℤ, Error, Outcome, done, failed, Io, ◌>>=◌, pure, Always,
}
use colnk.Agent.Network.{
  System, first_error, return_error, iptables, interface_owned, delete_jumps, delete_chain,
  cleanup_firewall, is_legacy, fields_of, remove_rules, remove_legacy_firewall_rules,
  delete_stale_interface, reconcile_stale_state, prepare_firewall, split_at, contains,
}
use colnk.Agent.Network.Quiet.{
  Resource, Within, IsQuiet, IsHonest, hush, commands, bind-IsQuiet, attempt-IsQuiet, if-IsQuiet,
  command_output-IsQuiet, iptables-IsQuiet, command_succeeds-IsQuiet, pure-IsQuiet,
}

module _ {S : Type 0} (holds : S → Resource → Bool) (system : System S) (name : Bytes) (port : ℤ)
    (honest : IsHonest holds system name) where
  then_jumps-IsQuiet :
      (rest : Io S (Option Error)) (e : Option Error)
      → IsQuiet holds rest
      → IsQuiet holds (elim e [ none ↦ rest | some x ↦ pure (some x) ])
  then_jumps-IsQuiet rest none h = h
  then_jumps-IsQuiet rest (some x) h = pure-IsQuiet holds (some x)

  delete_jumps-IsQuiet : (fuel : ℕ) → IsQuiet holds (delete_jumps system fuel)
  unfolding delete_jumps
  delete_jumps-IsQuiet zero = record { quiet = λ p s w. w }
  delete_jumps-IsQuiet (suc fuel) =
      bind-IsQuiet holds _ _ (command_succeeds-IsQuiet holds system name honest _) λ there.
        if-IsQuiet holds there _ _
          (bind-IsQuiet holds _ _
            (attempt-IsQuiet holds _ (iptables-IsQuiet holds system name honest _))
            λ e. then_jumps-IsQuiet _ e (delete_jumps-IsQuiet fuel))
          (pure-IsQuiet holds none)

  delete_chain-IsQuiet : IsQuiet holds (delete_chain system)
  unfolding delete_chain
  delete_chain-IsQuiet = search (hush, commands, honest) depth 14

  pub cleanup_firewall-IsQuiet : IsQuiet holds (cleanup_firewall system)
  unfolding cleanup_firewall
  cleanup_firewall-IsQuiet = record { quiet = λ p s. (go s).quiet p s }
    where
      go :
          (s : S)
          → IsQuiet holds (do
            jump ← delete_jumps system (system.jumps s + 1)
            chain ← delete_chain system
            return_error (first_error jump chain))
      go s = search (hush, delete_jumps-IsQuiet, delete_chain-IsQuiet)

  remove_rules-IsQuiet : (lines : List Bytes) → IsQuiet holds (remove_rules system name port lines)
  unfolding remove_rules
  remove_rules-IsQuiet [] = pure-IsQuiet holds tt
  remove_rules-IsQuiet (line ∷ lines) =
      if-IsQuiet holds (is_legacy system name port (fields_of line)) _ _
        (bind-IsQuiet holds _ _
          (attempt-IsQuiet holds _ (iptables-IsQuiet holds system name honest _))
          λ _. remove_rules-IsQuiet lines)
        (remove_rules-IsQuiet lines)

  rules_outcome :
      (p : Resource → Bool) (o : Outcome S Bytes)
      → Always (Within holds p) o
      → Always (Within holds p) (elim o [
        | failed _ t ↦ done tt t
        | done output t ↦
            remove_rules system name port (split_at (λ c. nat_beq c b'\n') [] output) t
      ])
  rules_outcome p (done output t) w = (remove_rules-IsQuiet _).quiet p t w
  rules_outcome p (failed e t) w = w

  remove_legacy_firewall_rules-IsQuiet :
      IsQuiet holds (remove_legacy_firewall_rules system name port)
  unfolding remove_legacy_firewall_rules
  remove_legacy_firewall_rules-IsQuiet = record {
    quiet = λ p s w.
        rules_outcome p (system.command_output (iptables (codes "-S" ∷ codes "OUTPUT" ∷ [])) s) (
          (command_output-IsQuiet holds system name honest
              (iptables (codes "-S" ∷ codes "OUTPUT" ∷ [])) refl (λ _. refl)).quiet
            p s w);
  }

  interface_owned-IsQuiet : IsQuiet holds (interface_owned system name port)
  unfolding interface_owned
  interface_owned-IsQuiet =
      bind-IsQuiet holds _ _ (command_output-IsQuiet holds system name honest _ refl (λ _. refl))
        λ details.
          if-IsQuiet holds (contains details (codes "alias colnk-owned")) _ _
            (pure-IsQuiet holds true)
            (bind-IsQuiet holds _ _
              (command_output-IsQuiet holds system name honest _ refl (λ _. refl))
              λ _. pure-IsQuiet holds _)

  delete_stale_interface-IsQuiet : IsQuiet holds (delete_stale_interface system name port)
  unfolding delete_stale_interface
  delete_stale_interface-IsQuiet = search (hush, commands, honest, interface_owned-IsQuiet)

  stale-IsQuiet : IsQuiet holds (λ s.
      if system.has_interface name s then delete_stale_interface system name port s else done tt s)
  stale-IsQuiet = record { quiet = λ p s. (go (system.has_interface name s)).quiet p s }
    where
      go :
          (b : Bool)
          → IsQuiet holds (λ s. if b then delete_stale_interface system name port s else done tt s)
      go true = delete_stale_interface-IsQuiet
      go false = pure-IsQuiet holds tt

  pub reconcile_stale_state-IsQuiet : IsQuiet holds (reconcile_stale_state system name port)
  unfolding reconcile_stale_state
  reconcile_stale_state-IsQuiet =
      search (hush, cleanup_firewall-IsQuiet, remove_legacy_firewall_rules-IsQuiet, stale-IsQuiet)

  pub prepare_firewall-IsQuiet : IsQuiet holds (prepare_firewall system)
  unfolding prepare_firewall
  prepare_firewall-IsQuiet = search (hush, commands, honest)
