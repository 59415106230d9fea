-- ===== src/Server/Session.antt =====
-- pkg/server/session.go and dns.go: one session from the accepted connection to its end. A run is the
-- list of what it does to the resources that it holds; whether each step succeeds is its environment.
pub mod Balance
pub mod Single
use colnk.Common.{
  Bytes, List, [], ◌∷◌, ◌++◌, Option, none, some, Bool, true, false, not, ◌&&◌, if◌then◌else◌,
  Result, ok, err,
}
use colnk.Common.Net.{split_host_port}
use colnk.Protocol.Types.{NetworkPolicy}

-- sessionState.active, and the closure that AcceptWhen is given.
unfoldable pub admit : Bool → Bool × Bool
admit true = (false, true)
admit false = (true, true)

-- What releaseSession does to `active`.
unfoldable pub release : Bool → Bool
release active = false

pub data Resource : Type 0 where
  raw_connection session connection context filesystem network dns resolver : Resource

-- `give r ok` is the call that gives a resource back, and whether it does: session.go drops the errors of
-- unmount, stopNetwork, stopDNS and restoreResolver, behind which the resource may still be held. Closing
-- what is closed already has no effect; releaseSession runs once.
pub data Event : Type 0 where
  take : Resource → Event
  give : Resource → Bool → Event

-- The outcome of each step of `startDNS`, and of `stopDNS` and `restoreResolver`.
pub record DnsSetup : Type 0 where
  pub starts : Bool
  pub configure_resolver : Bool
  pub address : Bytes
  pub resolver_configured : Bool
  pub stops : Bool
  pub resolver_restored : Bool

-- The outcome of each step of serveSession, and of `stopNetwork` and `unmount`. What SetupNetwork leaves where
-- it fails is not counted here.
pub record Setup : Type 0 where
  pub accepted : Bool
  pub admitted : Bool
  pub mounts : Bool
  pub network_starts : Bool
  pub dns : DnsSetup
  pub network_stops : Bool
  pub unmounts : Bool

-- What startDNS does, and whether it succeeds; the caller restores the resolver only if it was configured.
unfoldable pub start_dns : DnsSetup → List Event × Bool
unfolding split_host_port
start_dns setup =
    if not setup.starts
    then ([], false)
    else if not setup.configure_resolver
    then (take dns ∷ [], true)
    else elim (split_host_port setup.address) [
      | none ↦ (take dns ∷ give dns setup.stops ∷ [], false)
      | some _ ↦
          if setup.resolver_configured
          then (take dns ∷ take resolver ∷ [], true)
          else (take dns ∷ give dns setup.stops ∷ [], false)
    ]

-- The deferred calls, last first: cancel, connection.Close, releaseSession, raw.Close.
abbrev pub deferred_release : Setup → List Event
deferred_release setup = if setup.admitted then give session true ∷ [] else []

abbrev pub deferred : Setup → List Event
deferred setup =
    give context true ∷ give connection true ∷ deferred_release setup
    ++ give raw_connection true ∷ []

-- `restoreResolver(); stopDNS(); stopNetwork(); unmount()` behind releaseSession and connection.Close.
unfoldable pub tear_down : Setup → List Event
tear_down setup =
    give session true
      ∷ give connection true
      ∷ (if setup.dns.configure_resolver
          then give resolver setup.dns.resolver_restored ∷ []
          else [])
    ++ give dns setup.dns.stops
      ∷ give network setup.network_stops
      ∷ give filesystem setup.unmounts
      ∷ []

-- From the mounted file system on.
unfoldable pub serve_mounted : Setup → List Event
unfolding start_dns tear_down
serve_mounted setup =
    if not setup.network_starts
    then give session true ∷ give filesystem setup.unmounts ∷ []
    else let (events, started) = start_dns setup.dns in
      take network ∷ events
      ++ (if started
          then tear_down setup
          else give session true
            ∷ give network setup.network_stops
            ∷ give filesystem setup.unmounts
            ∷ [])

-- From the accepted connection on.
unfoldable pub serve_accepted : Setup → List Event
unfolding serve_mounted
serve_accepted setup =
    take connection
      ∷ take context
      ∷ (if setup.mounts then take filesystem ∷ serve_mounted setup else [])
    ++ deferred setup

unfoldable pub serve_session : Setup → List Event
unfolding serve_accepted
serve_session setup =
    take raw_connection ∷ (if setup.admitted then take session ∷ [] else [])
    ++ (if setup.accepted
        then serve_accepted setup
        else deferred_release setup ++ give raw_connection true ∷ [])
