-- ===== src/Tests/ProxyTests.antt =====
-- Setting up the transparent proxy at concrete inputs.
use colnk.Common.{
  ℕ, zero, suc, ◌<◌, ◌≤◌, Option, none, Error, ◌≡◌, refl, Bytes, codes, bytes_beq, bytes_beq_iff,
  List, [], ◌∷◌, Bool, true, false, ◌&&◌, if◌then◌else◌, Bool-cases, inl, inr, pos, read_failed, ok,
  Outcome, done, failed, Always, OnDone, Ends, arith,
}
use colnk.Agent.Network.{
  System, NetworkConfig, digits, itoa, contains, split_at, not_empty, contains_fields, fields_of,
  delete_jumps,
}
use colnk.Agent.Network.Setup.{effective_config, setup_network, stop, connection_limit}
use colnk.Agent.Network.Quiet.{Resource, link, route, adds, deleted, commands_beq}
use colnk.Agent.Network.Logged.{logged, IsDocumented, IsRestored}
use colnk.Agent.Network.Restored.{setup_network-restores}
use colnk.Agent.Network.Jumps.{IsCounted, delete_jumps-done}
use colnk.Tests.Nets.{some_net}

abbrev config : NetworkConfig
config = record { interface_name = codes "c0"; proxy_port = pos 0 }

-- A system whose state is what it holds, and which refuses the rules for routes.
abbrev Held : Type 0
Held = Resource → Bool

abbrev is_route_rule : List Bytes → Bool
is_route_rule (a ∷ b ∷ c ∷ d ∷ e ∷ rest) = bytes_beq e (codes "COLNK") && bytes_beq d (codes "-A")
is_route_rule _ = false

abbrev apply : List Bytes → Held → Held
apply command s x =
    if adds (codes "c0") command x
    then true
    else if commands_beq command (deleted (codes "c0") x)
    then false
    else s x

abbrev refusing : System Held
refusing = record {
  command_output = λ command s.
      if is_route_rule command then failed read_failed s else done [] (apply command s);
  has_interface = λ name s. s link;
  jumps = λ s. 0;
}

abbrev holds : Held → Resource → Bool
holds s x = s x

bytes_beq_refl : (s : Bytes) → bytes_beq s s ≡ true
bytes_beq_refl s = (bytes_beq_iff s s).1 refl

not_held : (cidr : Bytes) (b : Bool) → (if bytes_beq cidr cidr && true then false else b) ≡ false
not_held cidr b = rw (bytes_beq_refl cidr) refl

refusing-IsDocumented : IsDocumented holds refusing (codes "c0")
refusing-IsDocumented = record { adds_only = kept; adds_nothing = refuses; gone = deletes }
  where
    kept :
        (command : List Bytes) (s : Held) (x : Resource)
        → adds (codes "c0") command x ≡ false
        → Always (λ t. t x ≡ true → s x ≡ true) (refusing.command_output command s)
    kept command s x h = elim (Bool-cases (is_route_rule command)) [
      | inl e ↦ rw (e) (λ g. g)
      | inr e ↦ rw (e) (λ g. ground (arith, h, g))
    ]

    refuses :
        (command : List Bytes) (s : Held) (x : Resource)
        → Ends (λ _ _. Unit) (λ t. t x ≡ true → s x ≡ true) (refusing.command_output command s)
    refuses command s x = elim (Bool-cases (is_route_rule command)) [
      | inl e ↦ rw (e) (λ g. g)
      | inr e ↦ rw (e) tt
    ]

    deletes :
        (x : Resource) (s : Held)
        → OnDone (λ _ t. t x ≡ false) (refusing.command_output (deleted (codes "c0") x) s)
    deletes link s = refl
    deletes (route cidr) s = not_held cidr (s (route cidr))

setup_network-restores_example :
    Ends
      (λ _ r.
        Always
          (λ t. IsRestored holds refusing (codes "c0") (λ _. false) t.system)
          (stop
            (logged refusing)
            some_net
            (ok tt)
            (codes "c0")
            (effective_config config).proxy_port
            r))
      (λ r. IsRestored holds refusing (codes "c0") (λ _. false) r.system)
      (setup_network
        (logged refusing)
        some_net
        (ok tt)
        config
        (codes "10.0.0.0/8" ∷ [])
        ((λ _. false), []))
unfolding effective_config
setup_network-restores_example =
    setup_network-restores holds refusing some_net (ok tt) config refusing-IsDocumented
      (codes "10.0.0.0/8" ∷ []) (λ _. false)

-- A system whose state is the number of rules that lead to the chain.
abbrev check_rule : ℕ → Outcome ℕ Bytes
check_rule zero = failed read_failed zero
check_rule (suc n) = done [] (suc n)

abbrev delete_rule : ℕ → Outcome ℕ Bytes
delete_rule zero = failed read_failed zero
delete_rule (suc n) = done [] n

abbrev serve_rules : List Bytes → ℕ → Outcome ℕ Bytes
serve_rules (a ∷ b ∷ c ∷ flag ∷ chain ∷ rest) n =
    if bytes_beq chain (codes "OUTPUT")
    then if bytes_beq flag (codes "-C")
      then check_rule n
      else if bytes_beq flag (codes "-D")
      then delete_rule n
      else done [] n
    else done [] n
serve_rules _ n = done [] n

abbrev counting : System ℕ
counting = record { command_output = serve_rules; has_interface = λ name s. false; jumps = λ n. n }

counting-IsCounted : IsCounted counting
counting-IsCounted = record { check_adds_none = finds; deletes_one = deletes }
  where
    finds : (n : ℕ) → Always (λ t. t ≤ n) (check_rule n)
    finds zero = omega arith
    finds (suc n) = omega arith

    deletes : (n : ℕ) → Ends (λ _ t. t < n) (λ t. t ≤ n) (delete_rule n)
    deletes zero = omega arith
    deletes (suc n) = omega arith

delete_jumps-done_example :
    (error : Option Error) × (t : ℕ) × (delete_jumps counting 4 3 ≡ done error t) × (t ≤ 3)
delete_jumps-done_example = delete_jumps-done counting counting-IsCounted 4 3 (omega arith)

-- The loop deletes all three rules, and its last check finds none.
jumps_deleted : delete_jumps counting 4 3 ≡ done none 0
unfolding delete_jumps
jumps_deleted = refl

texts :
    (itoa (pos 15001) ≡ codes "15001")
    × (contains (codes "a alias colnk-owned") (codes "alias colnk") ≡ true)
    × (fields_of (codes "-A  OUTPUT -j X ")
        ≡ codes "-A" ∷ codes "OUTPUT" ∷ codes "-j" ∷ codes "X" ∷ [])
    × (contains_fields (codes "-A" ∷ codes "-j" ∷ codes "X" ∷ []) (codes "-j") (codes "X") ≡ true)
    × (connection_limit (pos 0) ≡ pos 256)
unfolding itoa digits contains split_at not_empty contains_fields connection_limit
texts = (refl, refl, refl, refl, refl)
