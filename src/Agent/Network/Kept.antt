-- ===== src/Agent/Network/Kept.antt =====
-- The steps of start in pkg/agent/network/network_linux.go.
use colnk.Common.{
  ◌≡◌, refl, Bytes, codes, [], ◌∷◌, ◌++◌, Option, none, some, Bool, true, false, not, ◌&&◌, ◌||◌, ℤ,
  Result, Outcome, done, failed, Io, ◌>>=◌, ◌>>◌, pure, fail, Always, Ends, >>=-Ends, Always-Ends,
  arith, Ends-map, invalid_cidr,
}
use colnk.Common.Net.{Net, Ip}
use colnk.Agent.Network.{
  System, NetworkRuntime, attempt, add_link, route_command, run_command, redirect,
}
use colnk.Agent.Network.Setup.{on_system, run_all, link_commands, add_route}
use colnk.Agent.Network.Quiet.{
  Resource, link, route, Within, IsQuiet, IsHonest, bind-IsQuiet, attempt-Ends, run_command-IsQuiet,
  iptables-IsQuiet, pure-IsQuiet,
}
use colnk.Agent.Network.Balance.{same, listed, added, listed-append, command_adding}
use colnk.Agent.Network.Released.{delete_route-Within}

-- What stop deletes.
abbrev pub is_owned : {S : Type 0} → NetworkRuntime S → Resource → Bool
is_owned r link = r.interface_created
is_owned r (route cidr) = listed r.routes (route cidr)

-- What was held before, or is deleted by stop.
abbrev pub owned : {S : Type 0} → (Resource → Bool) → NetworkRuntime S → Resource → Bool
owned p r y = p y || is_owned r y

module _ {S Network : Type 0} (holds : S → Resource → Bool) (system : System S) (net : Net Network)
    (listen : Result (Unit {0})) (name : Bytes) (port : ℤ) (honest : IsHonest holds system name)
    (p : Resource → Bool) where
  -- While start runs.
  unfoldable pub IsKept : NetworkRuntime S → Type 0
  IsKept r = (r.stopped ≡ false) × Within holds (owned p r) r.system

  system_outcome :
      (P : S → Type 0) (Q : NetworkRuntime S → Type 0) (R : S → Type 0)
      (change : NetworkRuntime S → NetworkRuntime S) (r : NetworkRuntime S)
      (o : Outcome S (Unit {0}))
      → Ends (λ _. P) R o
      → ((t : S) → P t → Q (change (record r { system = t })))
      → ((t : S) → R t → Q (record r { system = t }))
      → Always {A = Unit {0}} Q (elim o [
        | done _ t ↦ done tt (change (record r { system = t }))
        | failed e t ↦ failed e (record r { system = t })
      ])
  system_outcome P Q R change r (done a t) h k l = k t h
  system_outcome P Q R change r (failed e t) h k l = l t h

  pub on_system-IsKept :
      (m : Io S (Unit {0})) (r : NetworkRuntime S)
      → IsQuiet holds m
      → IsKept r
      → Always IsKept (on_system m (λ r'. r') r)
  unfolding on_system IsKept
  on_system-IsKept m r h (k, w) =
      let q = h.quiet (owned p r) r.system w in
      system_outcome (Within holds (owned p r)) IsKept (Within holds (owned p r)) (λ r'. r') r
        (m r.system) (Always-Ends (Within holds (owned p r)) (m r.system) q) (λ t g. (k, g))
        (λ t g. (k, g))

  pub run_all-IsQuiet :
      IsQuiet holds
        (run_all system net listen name port (link_commands system net listen name port))
  unfolding run_all
  run_all-IsQuiet =
      let run = run_command-IsQuiet holds system name honest (codes "ip") in
      bind-IsQuiet holds _ _ (run _ refl (λ _. refl)) λ _.
        bind-IsQuiet holds _ _ (run _ refl (λ _. refl))
          λ _. bind-IsQuiet holds _ _ (run _ refl (λ _. refl)) λ _. pure-IsQuiet holds tt

  run_adding :
      (q : Resource → Bool) (x : Resource) (s : S)
      → Within holds q s
      → Ends
          (λ _. Within holds λ y. q y || same x y)
          (Within holds q)
          (run_command system (added name x) s)
  unfolding run_command
  run_adding q link s w =
      >>=-Ends (λ _. Within holds λ y. q y || same link y)
        (λ _. Within holds λ y. q y || same link y) (Within holds q)
        (system.command_output (added name link)) (λ _. pure tt) s
        (command_adding holds system name port honest q link s w) (λ a t h. h)
  run_adding q (route cidr) s w =
      >>=-Ends (λ _. Within holds λ y. q y || same (route cidr) y)
        (λ _. Within holds λ y. q y || same (route cidr) y) (Within holds q)
        (system.command_output (added name (route cidr))) (λ _. pure tt) s
        (command_adding holds system name port honest q (route cidr) s w) (λ a t h. h)

  pub add_interface-IsKept :
      (r : NetworkRuntime S)
      → IsKept r
      → Always IsKept (
          on_system
            (run_command system (add_link name))
            (λ r'. record r' { interface_created = true })
            r)
  unfolding on_system IsKept same
  add_interface-IsKept r (k, w) =
      system_outcome (Within holds λ y. owned p r y || same link y) IsKept
        (Within holds (owned p r)) (λ r'. record r' { interface_created = true }) r
        (run_command system (add_link name) r.system) (run_adding (owned p r) link r.system w)
        (λ t g. (k, λ y h. created y (g y h))) (λ t g. (k, g))
    where
      created :
          (y : Resource)
          → (owned p r y || same link y) ≡ true
          → owned p (record r { interface_created = true }) y ≡ true
      created link h = ground arith
      created (route c) h = ground (arith, h)

  without :
      (q : Resource → Bool) (x y : Resource)
      → ((q y || same x y) && not (same x y)) ≡ true
      → q y ≡ true
  without q x y h = ground (arith, h)

  redirect_outcome :
      (q : Resource → Bool) (cidr : Bytes) (o : Outcome S (Unit {0}))
      → Always (Within holds λ y. q y || same (route cidr) y) o
      → Ends {A = Unit {0}}
          (λ _. Within holds λ y. q y || same (route cidr) y)
          (Within holds q)
          (elim o [
            | done _ t ↦ done tt t
            | failed e t ↦
                (attempt (run_command system (route_command name (codes "del") cidr)) >>= λ _.
                fail e)
                  t
          ])
  redirect_outcome q cidr (done a t) w = w
  redirect_outcome q cidr (failed e t) w =
      >>=-Ends (λ _. Within holds q) (λ _. Within holds λ y. q y || same (route cidr) y)
        (Within holds q) (attempt (run_command system (route_command name (codes "del") cidr)))
        (λ _. fail e) t
        (Ends-map (λ _. Within holds λ y. (q y || same (route cidr) y) && not (same (route cidr) y))
          (λ _. Within holds q) (Within holds q) (Within holds q)
          (λ _ u k y g. without q (route cidr) y (k y g)) (λ u k. k) _
          (attempt-Ends holds
            (Within holds λ y. (q y || same (route cidr) y) && not (same (route cidr) y))
            (Within holds q) (run_command system (route_command name (codes "del") cidr)) t
            (delete_route-Within holds system net listen name port honest
              (λ y. q y || same (route cidr) y) cidr t w)))
        (λ _ u k. k)

  redirect-Within :
      (q : Resource → Bool) (cidr : Bytes) (s : S)
      → Within holds (λ y. q y || same (route cidr) y) s
      → Ends
          (λ _. Within holds λ y. q y || same (route cidr) y)
          (Within holds q)
          (redirect system name port cidr s)
  unfolding redirect
  redirect-Within q cidr s w =
      redirect_outcome q cidr _
        ((iptables-IsQuiet holds system name honest _).quiet (λ y. q y || same (route cidr) y) s w)

  -- The two commands for a route: where the second fails, the route goes again.
  route_commands-Within :
      (q : Resource → Bool) (cidr : Bytes) (s : S)
      → Within holds q s
      → Ends
          (λ _. Within holds λ y. q y || same (route cidr) y)
          (Within holds q)
          ((run_command system (route_command name (codes "add") cidr)
              >> redirect system name port cidr)
            s)
  route_commands-Within q cidr s w =
      let M = Within holds λ y. q y || same (route cidr) y in
      >>=-Ends (λ _. M) (λ _. M) (Within holds q)
        (run_command system (route_command name (codes "add") cidr))
        (λ _. redirect system name port cidr) s (run_adding q (route cidr) s w)
        (λ _ t. redirect-Within q cidr t)

  pub add_route-IsKept :
      (cidr : Bytes) (r : NetworkRuntime S)
      → IsKept r
      → Always IsKept (add_route system net listen name port cidr r)
  unfolding add_route on_system IsKept same
  add_route-IsKept cidr r (k, w) = go (net.parse_cidr cidr)
    where
      appended :
          (y : Resource)
          → (owned p r y || same (route cidr) y) ≡ true
          → owned p (record r { routes = r.routes ++ cidr ∷ [] }) y ≡ true
      appended link h = ground (arith, h)
      appended (route c) h = ground (arith, h, listed-append r.routes cidr (route c))

      go :
          (o : Option (Ip × Network))
          → Always IsKept (
              elim o as (λ _. Io (NetworkRuntime S) (Unit {0})) [
                | none ↦ fail invalid_cidr
                | some _ ↦
                    on_system
                      (run_command system (route_command name (codes "add") cidr)
                        >> redirect system name port cidr)
                      (λ r'. record r' { routes = r'.routes ++ cidr ∷ [] })
              ]
                r)
      go none = (k, w)
      go (some _) =
          system_outcome (Within holds λ y. owned p r y || same (route cidr) y) IsKept
            (Within holds (owned p r)) (λ r'. record r' { routes = r'.routes ++ cidr ∷ [] }) r _
            (route_commands-Within (owned p r) cidr r.system w)
            (λ t g. (k, λ y h. appended y (g y h))) (λ t g. (k, g))
