-- ===== src/Agent/Network/Released.antt =====
-- start, stop and SetupNetwork of pkg/agent/network/network_linux.go: what they leave behind.
use colnk.Common.{
  ◌≡◌, refl, Bytes, codes, List, [], ◌∷◌, reverse, Bool, true, false, not, ◌&&◌, any, ℤ, Result,
  ◌>>=◌, pure, Always, Ends, >>=-Always, >>=-Ends, Ends-Always, Always-Ends, arith,
}
use colnk.Common.Net.{Net}
use colnk.Agent.Network.{
  System, first_error, attempt, return_error, delete_link, route_command, run_command,
  cleanup_firewall,
}
use colnk.Agent.Network.Setup.{delete_routes, delete_interface, take_down}
use colnk.Agent.Network.Quiet.{
  Resource, link, route, Within, IsHonest, attempt-Ends, return_error-IsQuiet,
}
use colnk.Agent.Network.Silence.{cleanup_firewall-IsQuiet}
use colnk.Agent.Network.Balance.{same, listed, command_deleting}

none_listed : (y : Resource) → listed [] y ≡ false
unfolding listed any
none_listed link = refl
none_listed (route cidr) = refl

both_gone :
    (b : Bool) (cidr : Bytes) (routes : List Bytes) (y : Resource)
    → ((b && not (same (route cidr) y)) && not (listed routes y)) ≡ true
    → (b && not (listed (cidr ∷ routes) y)) ≡ true
unfolding listed same any
both_gone b cidr routes link h = ground (arith, h)
both_gone b cidr routes (route c) h = ground (arith, h)

-- What is left of a set behind the deletion of the routes and of the interface.
unfoldable pub taken : List Bytes → Bool → (Resource → Bool) → Resource → Bool
unfolding listed same
taken routes created p y = (p y && not (listed (reverse routes) y)) && not (created && same link y)

module _ {S Network : Type 0} (holds : S → Resource → Bool) (system : System S) (net : Net Network)
    (listen : Result (Unit {0})) (name : Bytes) (port : ℤ)
    (honest : IsHonest holds system name) where
  pub delete_route-Within :
      (p : Resource → Bool) (cidr : Bytes) (s : S)
      → Within holds p s
      → Always
          (Within holds λ y. p y && not (same (route cidr) y))
          (run_command system (route_command name (codes "del") cidr) s)
  unfolding run_command
  delete_route-Within p cidr s w =
      >>=-Always (Within holds λ y. p y && not (same (route cidr) y))
        (system.command_output (route_command name (codes "del") cidr)) (λ _. pure tt) s
        (command_deleting holds system name port honest p (route cidr) s w) (λ a t h. h)

  delete_link-Within :
      (p : Resource → Bool) (s : S)
      → Within holds p s
      → Always
          (Within holds λ y. p y && not (same link y))
          (run_command system (delete_link name) s)
  unfolding run_command
  delete_link-Within p s w =
      >>=-Always (Within holds λ y. p y && not (same link y))
        (system.command_output (delete_link name)) (λ _. pure tt) s
        (command_deleting holds system name port honest p link s w) (λ a t h. h)

  -- Each route of the list is gone behind the loop of stop, which does not fail.
  delete_routes-Within :
      (Q : S → Type 0) (routes : List Bytes) (p : Resource → Bool) (s : S)
      → Within holds p s
      → Ends
          (λ _. Within holds λ y. p y && not (listed routes y))
          Q
          (delete_routes system net listen name port routes s)
  unfolding delete_routes
  delete_routes-Within Q [] p s w = λ y h. ground (arith, w y h, none_listed y)
  delete_routes-Within Q (cidr ∷ routes) p s w =
      let M : Unit {0} → S → Type 0 = λ _. Within holds λ y. p y && not (same (route cidr) y) in
      let command = run_command system (route_command name (codes "del") cidr) in
      let rest = delete_routes system net listen name port routes in
      >>=-Ends (λ _. M tt) (λ _. Within holds λ y. p y && not (listed (cidr ∷ routes) y)) Q
        (attempt command) (λ e. rest >>= λ f. pure (first_error e f)) s
        (attempt-Ends holds (M tt) Q command s (delete_route-Within p cidr s w))
        λ e t k.
          >>=-Ends
            (λ _. Within holds λ y. (p y && not (same (route cidr) y)) && not (listed routes y))
            (λ _. Within holds λ y. p y && not (listed (cidr ∷ routes) y)) Q rest
            (λ f. pure (first_error e f)) t
            (delete_routes-Within Q routes (λ y. p y && not (same (route cidr) y)) t k)
            λ f u g y h. both_gone (p y) cidr routes y (g y h)

  delete_interface-Within :
      (Q : S → Type 0) (created : Bool) (p : Resource → Bool) (s : S)
      → Within holds p s
      → Ends
          (λ _. Within holds λ y. p y && not (created && same link y))
          Q
          (delete_interface system net listen name port created s)
  unfolding delete_interface
  delete_interface-Within Q false p s w = λ y h. ground (arith, w y h)
  delete_interface-Within Q true p s w =
      attempt-Ends holds (Within holds λ y. p y && not (same link y)) Q
        (run_command system (delete_link name)) s (delete_link-Within p s w)

  pub take_down-Within :
      (routes : List Bytes) (created : Bool) (p : Resource → Bool) (s : S)
      → Within holds p s
      → Always
          (Within holds (taken routes created p))
          (take_down system net listen name port routes created s)
  unfolding take_down taken
  take_down-Within routes created p s w =
      let Q = Within holds (taken routes created p) in
      let R = Within holds λ y. p y && not (listed (reverse routes) y) in
      let cleanup = cleanup_firewall system in
      let interface = delete_interface system net listen name port created in
      Ends-Always Q (take_down system net listen name port routes created s) (
        >>=-Ends (λ _. R) (λ _. Q) Q (delete_routes system net listen name port (reverse routes))
          (λ e. attempt cleanup >>= λ f.
            interface >>= λ g. return_error (first_error e (first_error f g)))
          s (delete_routes-Within Q (reverse routes) p s w)
          λ e t k.
            >>=-Ends (λ _. R) (λ _. Q) Q (attempt cleanup)
              (λ f. interface >>= λ g. return_error (first_error e (first_error f g))) t
              (attempt-Ends holds R Q cleanup t
                ((cleanup_firewall-IsQuiet holds system name port honest).quiet _ t k))
              λ f u l.
                >>=-Ends (λ _. Q) (λ _. Q) Q interface
                  (λ g. return_error (first_error e (first_error f g))) u
                  (delete_interface-Within Q created (λ y. p y && not (listed (reverse routes) y)) u
                    l)
                  λ g v q.
                    Always-Ends Q (return_error (first_error e (first_error f g)) v)
                      ((return_error-IsQuiet holds (first_error e (first_error f g))).quiet _ v q))
