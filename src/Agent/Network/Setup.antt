-- ===== src/Agent/Network/Setup.antt =====
-- pkg/agent/network/network_linux.go: start, stop and SetupNetwork. net.Listen is a parameter by its result.
-- The loop that accepts connections starts behind `start`, and stop may be called again when a context ends.
use colnk.Common.{
  Bytes, codes, is_empty, List, [], ◌∷◌, ◌++◌, reverse, Option, none, some, Bool, true, false,
  if◌then◌else◌, ℤ, pos, leb_ℤ, min_ℤ, is_zero, Error, invalid_cidr, Result, Outcome, done, failed,
  Io, ◌>>=◌, ◌>>◌, pure, fail, lift,
}
use colnk.Common.Net.{Net}
use colnk.Agent.Network.{
  System, NetworkRuntime, NetworkConfig, first_error, attempt, return_error, add_link, delete_link,
  route_command, run_command, reconcile_stale_state, prepare_firewall, redirect, cleanup_firewall,
}

-- `connectionLimit`, the size of tcpSlots.
unfoldable pub connection_limit : ℤ → ℤ
connection_limit n = if leb_ℤ n (pos 0) then pos 256 else min_ℤ n (pos 1024)

unfoldable pub effective_config : NetworkConfig → NetworkConfig
effective_config config = record {
  interface_name = if is_empty config.interface_name then codes "local0" else config.interface_name;
  proxy_port = if is_zero config.proxy_port then pos 15001 else config.proxy_port;
}

abbrev pub new_runtime : {S : Type 0} → S → NetworkRuntime S
new_runtime s = record {
  listening = false;
  routes = [];
  interface_created = false;
  stopped = false;
  system = s;
}

-- Code that runs commands, as code of the runtime, and a change behind it where it succeeds.
unfoldable pub on_system :
    {S : Type 0}
    → Io S (Unit {0})
    → (NetworkRuntime S → NetworkRuntime S)
    → Io (NetworkRuntime S) (Unit {0})
on_system m change r = elim (m r.system) [
  | done _ t ↦ done tt (change (record r { system = t }))
  | failed e t ↦ failed e (record r { system = t })
]

module _ {S Network : Type 0} (system : System S) (net : Net Network) (listen : Result (Unit {0}))
    (interface_name : Bytes) (proxy_port : ℤ) where
  unfoldable pub run_all : List (List Bytes) → Io S (Unit {0})
  unfolding run_command
  run_all [] = pure tt
  run_all (command ∷ commands) = do run_command system command; run_all commands

  -- `commands` in start.
  abbrev pub link_commands : List (List Bytes)
  link_commands =
      (codes "ip"
        ∷ codes "link"
        ∷ codes "set"
        ∷ codes "dev"
        ∷ interface_name
        ∷ codes "alias"
        ∷ codes "colnk-owned"
        ∷ [])
      ∷ (codes "ip"
          ∷ codes "addr"
          ∷ codes "add"
          ∷ codes "100.64.0.2/32"
          ∷ codes "dev"
          ∷ interface_name
          ∷ [])
      ∷ (codes "ip" ∷ codes "link" ∷ codes "set" ∷ codes "dev" ∷ interface_name ∷ codes "up" ∷ [])
      ∷ []

  unfoldable pub add_route : Bytes → Io (NetworkRuntime S) (Unit {0})
  unfolding on_system run_command redirect
  add_route cidr = elim (net.parse_cidr cidr) [
    | none ↦ fail invalid_cidr
    | some _ ↦
        on_system
          (run_command system (route_command interface_name (codes "add") cidr)
            >> redirect system interface_name proxy_port cidr)
          (λ r. record r { routes = r.routes ++ cidr ∷ [] })
  ]

  unfoldable pub add_routes : List Bytes → Io (NetworkRuntime S) (Unit {0})
  unfolding add_route
  add_routes [] = pure tt
  add_routes (cidr ∷ cidrs) = do add_route cidr; add_routes cidrs

  unfoldable pub start : List Bytes → Io (NetworkRuntime S) (Unit {0})
  unfolding on_system reconcile_stale_state run_command run_all prepare_firewall add_routes
  start cidrs = do
    lift listen
    (λ r. done tt (record r { listening = true }))
    on_system (reconcile_stale_state system interface_name proxy_port) (λ r. r)
    on_system (run_command system (add_link interface_name))
        (λ r. record r { interface_created = true })
    on_system (run_all link_commands) (λ r. r)
    on_system (prepare_firewall system) (λ r. r)
    add_routes cidrs

  -- The loop of stop over the routes, the last first.
  unfoldable pub delete_routes : List Bytes → Io S (Option Error)
  unfolding attempt run_command
  delete_routes [] = pure none
  delete_routes (cidr ∷ cidrs) = do
    e ← attempt (run_command system (route_command interface_name (codes "del") cidr))
    f ← delete_routes cidrs
    pure (first_error e f)

  unfoldable pub delete_interface : Bool → Io S (Option Error)
  unfolding attempt run_command
  delete_interface false = pure none
  delete_interface true = attempt (run_command system (delete_link interface_name))

  -- The commands of stop.
  unfoldable pub take_down : List Bytes → Bool → Io S (Unit {0})
  unfolding delete_routes attempt cleanup_firewall delete_interface
  take_down routes created = do
    e ← delete_routes (reverse routes)
    f ← attempt (cleanup_firewall system)
    g ← delete_interface created
    return_error (first_error e (first_error f g))

  unfoldable pub stop : Io (NetworkRuntime S) (Unit {0})
  unfolding on_system take_down
  stop r =
      if r.stopped
      then done tt r
      else on_system (take_down r.routes r.interface_created) (λ r'. r')
          (record r { listening = false; stopped = true })

  -- SetupNetwork behind the configuration: where start fails, stop runs.
  unfoldable pub start_or_stop : List Bytes → Io (NetworkRuntime S) (Unit {0})
  unfolding start stop
  start_or_stop cidrs r = elim (start cidrs r) [
    | done _ r' ↦ done tt r'
    | failed e r' ↦ elim (stop r') [ done _ r'' ↦ failed e r'' | failed _ r'' ↦ failed e r'' ]
  ]

unfoldable pub setup_network :
    {S Network : Type 0}
    → System S
    → Net Network
    → Result (Unit {0})
    → NetworkConfig
    → List Bytes
    → S
    → Outcome (NetworkRuntime S) (Unit {0})
unfolding effective_config start_or_stop
setup_network system net listen config cidrs s =
    let effective = effective_config config in
    start_or_stop system net listen effective.interface_name effective.proxy_port cidrs
      (new_runtime s)
