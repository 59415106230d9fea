-- ===== src/Agent/Network/Restored.antt =====
-- SetupNetwork of pkg/agent/network/network_linux.go, whether it succeeds or fails, and stop behind it.
use colnk.Common.{
  ◌≡◌, refl, Bytes, List, [], ◌∷◌, Bool, true, false, ℤ, Error, Result, ok, err, Outcome, done,
  failed, Io, ◌>>◌, lift, Always, Always-map, Ends-map, Ends, >>=-Always, arith,
}
use colnk.Common.Net.{Net}
use colnk.Agent.Network.{System, NetworkRuntime, NetworkConfig}
use colnk.Agent.Network.Setup.{
  on_system, new_runtime, add_route, add_routes, start, take_down, stop, start_or_stop,
  effective_config, setup_network,
}
use colnk.Agent.Network.Quiet.{Resource, link, route, Within, IsQuiet, IsHonest}
use colnk.Agent.Network.Silence.{reconcile_stale_state-IsQuiet, prepare_firewall-IsQuiet}
use colnk.Agent.Network.Balance.{same, listed-reverse}
use colnk.Agent.Network.Released.{taken, take_down-Within}
use colnk.Agent.Network.Logged.{
  logged, IsDocumented, IsRestored, holds_unrefused, Within-IsRestored, logged-IsHonest,
}
use colnk.Agent.Network.Kept.{
  owned, IsKept, on_system-IsKept, run_all-IsQuiet, add_interface-IsKept, add_route-IsKept,
}

module _ {S Network : Type 0} (holds : S → Resource → Bool) (system : System S) (net : Net Network)
    (listen : Result (Unit {0})) (name : Bytes) (port : ℤ) (honest : IsHonest holds system name)
    (p : Resource → Bool) where
  taken-owned :
      (r : NetworkRuntime S) (y : Resource)
      → taken r.routes r.interface_created (owned p r) y ≡ true
      → p y ≡ true
  unfolding taken same
  taken-owned r link h = ground (arith, h)
  taken-owned r (route c) h = ground (arith, h, listed-reverse r.routes (route c))

  add_routes-IsKept :
      (cidrs : List Bytes) (r : NetworkRuntime S)
      → IsKept holds system net listen name port honest p r
      → Always
          (IsKept holds system net listen name port honest p)
          (add_routes system net listen name port cidrs r)
  unfolding add_routes
  add_routes-IsKept [] r h = h
  add_routes-IsKept (cidr ∷ cidrs) r h =
      >>=-Always (IsKept holds system net listen name port honest p)
        (add_route system net listen name port cidr)
        (λ _. add_routes system net listen name port cidrs) r
        (add_route-IsKept holds system net listen name port honest p cidr r h)
        (λ _ t. add_routes-IsKept cidrs t)

  listens :
      (r : NetworkRuntime S)
      → IsKept holds system net listen name port honest p r
      → IsKept holds system net listen name port honest p (record r { listening = true })
  unfolding IsKept
  listens r h = h

  -- Code that keeps it, whether it succeeds or fails.
  record IsSafe (m : Io (NetworkRuntime S) (Unit {0})) : Type 0 where
    safe :
        (r : NetworkRuntime S)
        → IsKept holds system net listen name port honest p r
        → Always (IsKept holds system net listen name port honest p) (m r)

  then-IsSafe : (m k : Io (NetworkRuntime S) (Unit {0})) → IsSafe m → IsSafe k → IsSafe (m >> k)
  then-IsSafe m k h j = record {
    safe = λ r i.
        >>=-Always (IsKept holds system net listen name port honest p) m (λ _. k) r (h.safe r i)
          (λ _. j.safe);
  }

  lift-IsSafe : (o : Result (Unit {0})) → IsSafe (lift o)
  lift-IsSafe (ok _) = record { safe = λ r h. h }
  lift-IsSafe (err _) = record { safe = λ r h. h }

  on_system-IsSafe : (m : Io S (Unit {0})) → IsQuiet holds m → IsSafe (on_system m (λ r. r))
  on_system-IsSafe m q = record {
    safe = λ r h. on_system-IsKept holds system net listen name port honest p m r q h;
  }

  -- Whether start succeeds or fails, what is held was held before or is what stop deletes.
  start-IsSafe : (cidrs : List Bytes) → IsSafe (start system net listen name port cidrs)
  unfolding start
  start-IsSafe cidrs = then-IsSafe _ _ (lift-IsSafe listen) (
      then-IsSafe (λ r. done tt (record r { listening = true })) _ (record { safe = listens })
        (then-IsSafe _ _
          (on_system-IsSafe _ (reconcile_stale_state-IsQuiet holds system name port honest))
          (then-IsSafe _ _
            (record { safe = add_interface-IsKept holds system net listen name port honest p })
            (then-IsSafe _ _
              (on_system-IsSafe _ (run_all-IsQuiet holds system net listen name port honest p))
              (then-IsSafe _ _
                (on_system-IsSafe _ (prepare_firewall-IsQuiet holds system name port honest))
                (record { safe = add_routes-IsKept cidrs }))))))

  -- Behind stop, nothing is held that was not before.
  stop-Within :
      (r : NetworkRuntime S)
      → IsKept holds system net listen name port honest p r
      → Always (λ t. Within holds p t.system) (stop system net listen name port r)
  unfolding stop on_system IsKept
  stop-Within r (k, w) = rw (k) (
      go (take_down system net listen name port r.routes r.interface_created r.system) (
        take_down-Within holds system net listen name port honest r.routes r.interface_created
          (owned p r) r.system w))
    where
      go :
          (o : Outcome S (Unit {0}))
          → Always (Within holds (taken r.routes r.interface_created (owned p r))) o
          → Always {A = Unit {0}}
              (λ t. Within holds p t.system)
              (elim o [
                | done _ t ↦ done tt (record r { listening = false; stopped = true; system = t })
                | failed e t ↦ failed e (record r { listening = false; stopped = true; system = t })
              ])
      go (done _ t) h = λ y g. taken-owned r y (h y g)
      go (failed _ t) h = λ y g. taken-owned r y (h y g)

  stopped_outcome :
      (e : Error) (o : Outcome (NetworkRuntime S) (Unit {0}))
      → Always (λ t. Within holds p t.system) o
      → Ends {A = Unit {0}}
          (λ _ t. Always (λ u. Within holds p u.system) (stop system net listen name port t))
          (λ t. Within holds p t.system)
          (elim o [ done _ r ↦ failed e r | failed _ r ↦ failed e r ])
  stopped_outcome e (done _ r) h = h
  stopped_outcome e (failed _ r) h = h

  -- Where start succeeds, stop may still come; where it fails, stop has run.
  start_or_stop-Ends :
      (cidrs : List Bytes) (r : NetworkRuntime S)
      → IsKept holds system net listen name port honest p r
      → Ends
          (λ _ t. Always (λ u. Within holds p u.system) (stop system net listen name port t))
          (λ t. Within holds p t.system)
          (start_or_stop system net listen name port cidrs r)
  unfolding start_or_stop
  start_or_stop-Ends cidrs r h =
      go (start system net listen name port cidrs r) ((start-IsSafe cidrs).safe r h)
    where
      go :
          (o : Outcome (NetworkRuntime S) (Unit {0}))
          → Always (IsKept holds system net listen name port honest p) o
          → Ends {A = Unit {0}}
              (λ _ t. Always (λ u. Within holds p u.system) (stop system net listen name port t))
              (λ t. Within holds p t.system)
              (elim o [
                | done _ t ↦ done tt t
                | failed e t ↦ elim (stop system net listen name port t) [
                  | done _ u ↦ failed e u
                  | failed _ u ↦ failed e u
                ]
              ])
      go (done _ t) k = stop-Within t k
      go (failed e t) k = stopped_outcome e (stop system net listen name port t) (stop-Within t k)

module _ {S Network : Type 0} (holds : S → Resource → Bool) (system : System S) (net : Net Network)
    (listen : Result (Unit {0})) (config : NetworkConfig)
    (honest : IsHonest holds system (effective_config config).interface_name) where
  new-IsKept :
      (s : S)
      → IsKept holds system net listen
          (effective_config config).interface_name
          (effective_config config).proxy_port
          honest
          (holds s)
          (new_runtime s)
  unfolding IsKept
  new-IsKept s = (refl, λ y h. rw (h) refl)

  setup_network-Within :
      (cidrs : List Bytes) (s : S)
      → Ends
          (λ _ r.
            Always
              (λ t. Within holds (holds s) t.system)
              (stop system net listen
                (effective_config config).interface_name
                (effective_config config).proxy_port
                r))
          (λ r. Within holds (holds s) r.system)
          (setup_network system net listen config cidrs s)
  unfolding setup_network
  setup_network-Within cidrs s =
      start_or_stop-Ends holds system net listen (effective_config config).interface_name
        (effective_config config).proxy_port honest (holds s) cidrs (new_runtime s) (new-IsKept s)

module _ {S Network : Type 0} (holds : S → Resource → Bool) (system : System S) (net : Net Network)
    (listen : Result (Unit {0})) (config : NetworkConfig)
    (documented : IsDocumented holds system (effective_config config).interface_name) where
  -- Where SetupNetwork fails, and where it succeeds and stop runs later, whether stop succeeds or not, the
  -- interface and each route that are held were held before, or the command that deletes them has failed, if
  -- a command adds at most what it says and nothing where it fails, and what was deleted is not held.
  pub setup_network-restores :
      (cidrs : List Bytes) (s : S)
      → Ends
          (λ _ r.
            Always
              (λ t. IsRestored holds system (effective_config config).interface_name s t.system)
              (stop
                (logged system)
                net
                listen
                (effective_config config).interface_name
                (effective_config config).proxy_port
                r))
          (λ r. IsRestored holds system (effective_config config).interface_name s r.system)
          (setup_network (logged system) net listen config cidrs (s, []))
  setup_network-restores cidrs s =
      let name = (effective_config config).interface_name in
      let p = holds_unrefused holds system name in
      let restored = λ (t : NetworkRuntime (S × List (List Bytes))).
        Within-IsRestored holds system name s t.system in
      Ends-map
        (λ _ r.
          Always (λ t. Within p (p (s, [])) t.system)
            (stop (logged system) net listen name (effective_config config).proxy_port r))
        (λ _ r.
          Always (λ t. IsRestored holds system name s t.system)
            (stop (logged system) net listen name (effective_config config).proxy_port r))
        (λ r. Within p (p (s, [])) r.system) (λ r. IsRestored holds system name s r.system)
        (λ _ r.
          Always-map (λ t. Within p (p (s, [])) t.system)
            (λ t. IsRestored holds system name s t.system) restored
            (stop (logged system) net listen name (effective_config config).proxy_port r))
        restored (setup_network (logged system) net listen config cidrs (s, []))
        (setup_network-Within p (logged system) net listen config
          (logged-IsHonest holds system name documented) cidrs (s, []))
