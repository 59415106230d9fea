-- ===== src/Agent/Network.antt =====
-- pkg/agent/network/network_linux.go, firewall_linux.go and system_linux.go: the commands that set up the
-- transparent proxy and take it down. Running a command is a parameter, with a state of its own.
pub mod Setup
pub mod Quiet
pub mod Silence
pub mod Balance
pub mod Released
pub mod Kept
pub mod Logged
pub mod Restored
pub mod Jumps
use colnk.Common.{
  ℕ, zero, suc, ◌+◌, ◌/◌, ◌%◌, min, Bytes, codes, bytes_beq, has_prefix, is_empty, drop, length,
  List, [], ◌∷◌, ◌++◌, reverse, Option, none, some, Bool, true, false, not, ◌&&◌, ◌||◌, ltb,
  nat_beq, if◌then◌else◌, any, ℤ, pos, negsuc, min_ℤ, Error, interface_not_owned, no_rounds_left,
  invalid_cidr, Result, Outcome, done, failed, Io, ◌>>=◌, ◌>>◌, pure, fail, fail_if, lift,
}
use colnk.Common.Net.{Net, is_space}

-- exec.Command, net.InterfaceByName, and how many rules of OUTPUT lead to the chain, which bounds the loop
-- that deletes them.
pub record System (S : Type 0) : Type 0 where
  pub command_output : List Bytes → Io S Bytes
  pub has_interface : Bytes → S → Bool
  pub jumps : S → ℕ

-- The fields of networkRuntime that change; `stopped` is that its `once` has run.
pub record NetworkRuntime (S : Type 0) : Type 0 where
  pub listening : Bool
  pub routes : List Bytes
  pub interface_created : Bool
  pub stopped : Bool
  pub system : S

pub record NetworkConfig : Type 0 where
  pub interface_name : Bytes
  pub proxy_port : ℤ

-- strings.Contains
unfoldable pub contains : Bytes → Bytes → Bool
contains [] t = is_empty t
contains (c ∷ s) t = has_prefix (c ∷ s) t || contains s t

-- strings.Split and strings.Fields
unfoldable pub split_at : (ℕ → Bool) → Bytes → Bytes → List Bytes
split_at stop word [] = reverse word ∷ []
split_at stop word (c ∷ s) =
    let next = split_at stop [] s in
    let longer = split_at stop (c ∷ word) s in if stop c then reverse word ∷ next else longer

unfoldable pub not_empty : List Bytes → List Bytes
not_empty [] = []
not_empty (word ∷ words) = let rest = not_empty words in if is_empty word then rest else word ∷ rest

abbrev pub fields_of : Bytes → List Bytes
fields_of line = not_empty (split_at is_space [] line)

unfoldable pub contains_fields : List Bytes → Bytes → Bytes → Bool
contains_fields [] left right = false
contains_fields (_ ∷ []) left right = false
contains_fields (a ∷ b ∷ rest) left right =
    bytes_beq a left && bytes_beq b right || contains_fields (b ∷ rest) left right

-- strconv.Itoa of a number that is not negative, with fuel for its digits.
unfoldable pub digits : ℕ → ℕ → Bytes
digits zero n = []
digits (suc fuel) n =
    let rest = digits fuel (n / 10) in
    if nat_beq (n / 10) 0 then (b'0' + n) ∷ [] else rest ++ ((b'0' + n % 10) ∷ [])

unfoldable pub itoa : ℤ → Bytes
unfolding digits
itoa (pos n) = digits (n + 1) n
itoa (negsuc n) = b'-' ∷ digits (n + 2) (n + 1)

abbrev pub first_error : Option Error → Option Error → Option Error
first_error none e = e
first_error (some e) _ = some e

-- The error of code that goes on.
unfoldable pub attempt : {S A : Type 0} → Io S A → Io S (Option Error)
attempt m s = elim (m s) [ done _ t ↦ done none t | failed e t ↦ done (some e) t ]

abbrev pub return_error : {S : Type 0} → Option Error → Io S (Unit {0})
return_error none = pure tt
return_error (some e) = fail e

abbrev pub iptables : List Bytes → List Bytes
iptables arguments = codes "iptables" ∷ codes "-t" ∷ codes "nat" ∷ arguments

module _ {S : Type 0} (system : System S) where
  unfoldable pub run_command : List Bytes → Io S (Unit {0})
  run_command [] = pure tt
  run_command (name ∷ arguments) = do _ ← system.command_output (name ∷ arguments); pure tt

  unfoldable pub command_succeeds : List Bytes → Io S Bool
  command_succeeds command s = elim (system.command_output command s) [
    | done _ t ↦ done true t
    | failed _ t ↦ done false t
  ]

  -- The loop of cleanupFirewall, with fuel: the error that ended it. Code without rounds left fails.
  unfoldable pub delete_jumps : ℕ → Io S (Option Error)
  unfolding command_succeeds attempt run_command
  delete_jumps zero = fail no_rounds_left
  delete_jumps (suc fuel) =
      let rest = delete_jumps fuel in
      do
        there ←
            command_succeeds
              (iptables (codes "-C" ∷ codes "OUTPUT" ∷ codes "-j" ∷ codes "COLNK" ∷ []))
        (if there
            then (do
              error ← attempt (
                  run_command
                    (iptables (codes "-D" ∷ codes "OUTPUT" ∷ codes "-j" ∷ codes "COLNK" ∷ [])))
              elim error [ none ↦ rest | some e ↦ pure (some e) ])
            else pure none)

  unfoldable pub delete_chain : Io S (Option Error)
  unfolding command_succeeds attempt run_command
  delete_chain = do
    there ← command_succeeds (iptables (codes "-L" ∷ codes "COLNK" ∷ []))
    (if there
        then (do
          flushed ← attempt (run_command (iptables (codes "-F" ∷ codes "COLNK" ∷ [])))
          deleted ← attempt (run_command (iptables (codes "-X" ∷ codes "COLNK" ∷ [])))
          pure (first_error flushed deleted))
        else pure none)

  unfoldable pub cleanup_firewall : Io S (Unit {0})
  unfolding delete_jumps delete_chain
  cleanup_firewall s =
      let fuel = system.jumps s + 1 in
      (do jump ← delete_jumps fuel; chain ← delete_chain; return_error (first_error jump chain)) s

  unfoldable pub prepare_firewall : Io S (Unit {0})
  unfolding run_command
  prepare_firewall = do
    run_command (iptables (codes "-N" ∷ codes "COLNK" ∷ []))
    run_command (iptables (codes "-A" ∷ codes "OUTPUT" ∷ codes "-j" ∷ codes "COLNK" ∷ []))

module _ (interface_name : Bytes) where
  abbrev pub add_link : List Bytes
  add_link =
      codes "ip"
      ∷ codes "link"
      ∷ codes "add"
      ∷ codes "dev"
      ∷ interface_name
      ∷ codes "type"
      ∷ codes "dummy"
      ∷ []

  abbrev pub delete_link : List Bytes
  delete_link = codes "ip" ∷ codes "link" ∷ codes "del" ∷ interface_name ∷ []

  abbrev pub route_command : Bytes → Bytes → List Bytes
  route_command verb cidr =
      codes "ip" ∷ codes "route" ∷ verb ∷ cidr ∷ codes "dev" ∷ interface_name ∷ []

module _ {S : Type 0} (system : System S) (interface_name : Bytes) (proxy_port : ℤ) where
  unfoldable pub interface_owned : Io S Bool
  unfolding contains
  interface_owned = do
    details ← system.command_output (
        codes "ip"
        ∷ codes "-d"
        ∷ codes "-o"
        ∷ codes "link"
        ∷ codes "show"
        ∷ codes "dev"
        ∷ interface_name
        ∷ [])
    (if contains details (codes "alias colnk-owned") then pure true else (do
      addresses ← system.command_output (
          codes "ip" ∷ codes "-o" ∷ codes "addr" ∷ codes "show" ∷ codes "dev" ∷ interface_name ∷ [])
      pure (contains addresses (codes "100.64.0.2/32"))))

  abbrev pub is_legacy : List Bytes → Bool
  is_legacy fields =
      not (ltb (length fields) 2)
      && contains_fields fields (codes "-j") (codes "REDIRECT")
      && contains_fields fields (codes "--to-ports") (itoa proxy_port)

  -- The loop of removeLegacyFirewallRules.
  unfoldable pub remove_rules : List Bytes → Io S (Unit {0})
  unfolding contains_fields itoa split_at not_empty attempt run_command
  remove_rules [] = pure tt
  remove_rules (line ∷ lines) =
      let rest = remove_rules lines in
      if is_legacy (fields_of line)
      then (do
        _ ← attempt (run_command system (iptables (codes "-D" ∷ drop 1 (fields_of line))))
        rest)
      else rest

  unfoldable pub remove_legacy_firewall_rules : Io S (Unit {0})
  unfolding split_at remove_rules
  remove_legacy_firewall_rules s =
      elim (system.command_output (iptables (codes "-S" ∷ codes "OUTPUT" ∷ [])) s) [
        | failed _ t ↦ done tt t
        | done output t ↦ remove_rules (split_at (λ c. nat_beq c b'\n') [] output) t
      ]

  -- Where the interface is there already: it must be an own one, and goes.
  unfoldable pub delete_stale_interface : Io S (Unit {0})
  unfolding interface_owned run_command
  delete_stale_interface = do
    owned ← interface_owned
    fail_if (not owned) (interface_not_owned interface_name)
    run_command system (delete_link interface_name)

  unfoldable pub reconcile_stale_state : Io S (Unit {0})
  unfolding cleanup_firewall remove_legacy_firewall_rules delete_stale_interface
  reconcile_stale_state = do
    cleanup_firewall system
    remove_legacy_firewall_rules
    (λ s. if system.has_interface interface_name s then delete_stale_interface s else done tt s)

  -- The rule for a route, without which the route goes again.
  unfoldable pub redirect : Bytes → Io S (Unit {0})
  unfolding run_command attempt itoa
  redirect cidr s =
      elim (run_command system
        (iptables (
          codes "-A"
          ∷ codes "COLNK"
          ∷ codes "-p"
          ∷ codes "tcp"
          ∷ codes "-d"
          ∷ cidr
          ∷ codes "-j"
          ∷ codes "REDIRECT"
          ∷ codes "--to-ports"
          ∷ itoa proxy_port
          ∷ []))
        s) [
          | done _ t ↦ done tt t
          | failed e t ↦
              (do
                _ ← attempt (run_command system (route_command interface_name (codes "del") cidr))
                fail e)
                t
        ]
