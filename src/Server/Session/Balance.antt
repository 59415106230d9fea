-- ===== src/Server/Session/Balance.antt =====
-- The resources of a session (pkg/server/session.go) over its whole run.
use colnk.Common.{
  ◌≡◌, refl, ◌⊎◌, List, [], ◌∷◌, Bool, true, false, not, ◌&&◌, ◌||◌, arith, nat_beq, ℕ,
  Option-cases, inl, inr,
}
use colnk.Common.Net.{split_host_port}
use colnk.Server.Session.{
  Resource, raw_connection, session, connection, context, filesystem, network, dns, resolver, Event,
  take, give, DnsSetup, Setup, start_dns, tear_down, serve_mounted, serve_accepted, serve_session,
}

abbrev number : Resource → ℕ
number raw_connection = 0
number session = 1
number connection = 2
number context = 3
number filesystem = 4
number network = 5
number dns = 6
number resolver = 7

abbrev resource_beq : Resource → Resource → Bool
resource_beq a b = nat_beq (number a) (number b)

-- Whether a resource is held behind the events, if it was or was not before.
unfoldable pub held_after : Resource → Bool → List Event → Bool
held_after r held [] = held
held_after r held (take s ∷ events) = held_after r (held || resource_beq r s) events
held_after r held (give s gives ∷ events) =
    held_after r (held && not (resource_beq r s && gives)) events

-- Whether the call that gives a resource back may fail, and does.
abbrev pub is_kept : Setup → Resource → Bool
is_kept s filesystem = not s.unmounts
is_kept s network = not s.network_stops
is_kept s dns = not s.dns.stops
is_kept s resolver = not s.dns.resolver_restored
is_kept s _ = false

abbrev given : Setup → List Event → Resource → Bool
given s events r = not (held_after r false events) || is_kept s r

abbrev all_given : Setup → List Event → Bool
all_given s events =
    given s events raw_connection
    && given s events session
    && given s events connection
    && given s events context
    && given s events filesystem
    && given s events network
    && given s events dns
    && given s events resolver

-- The four ways in which startDNS ends.
start_dns_cases :
    (d : DnsSetup)
    → (start_dns d ≡ ([], false))
      ⊎ ((start_dns d ≡ (take dns ∷ give dns d.stops ∷ [], false))
          ⊎ (((start_dns d ≡ (take dns ∷ [], true)) × (d.configure_resolver ≡ false))
              ⊎ ((start_dns d ≡ (take dns ∷ take resolver ∷ [], true))
                  × (d.configure_resolver ≡ true))))
unfolding start_dns
start_dns_cases d = elim (Option-cases (split_host_port d.address)) [
  | inl e ↦ ground (arith, e)
  | inr (a, e) ↦ ground (arith, e)
]

abbrev setup : Bool → Bool → Bool → Bool → DnsSetup → Bool → Bool → Setup
setup accepted admitted mounts network_starts d network_stops unmounts = record {
  accepted = accepted;
  admitted = admitted;
  mounts = mounts;
  network_starts = network_starts;
  dns = d;
  network_stops = network_stops;
  unmounts = unmounts;
}

-- A session that got as far as startDNS.
all_given-dns :
    (admitted : Bool) (d : DnsSetup) (n u : Bool)
    → all_given
        (setup true admitted true true d n u)
        (serve_session (setup true admitted true true d n u))
      ≡ true
unfolding serve_session serve_accepted serve_mounted tear_down held_after
all_given-dns true d n u = elim (start_dns_cases d) [
  | inl e ↦ rw e (ground arith)
  | inr (inl e) ↦ rw e (ground arith)
  | inr (inr (inl (e, c))) ↦ rw e (rw c (ground arith))
  | inr (inr (inr (e, c))) ↦ rw e (rw c (ground arith))
]
all_given-dns false d n u = elim (start_dns_cases d) [
  | inl e ↦ rw e (ground arith)
  | inr (inl e) ↦ rw e (ground arith)
  | inr (inr (inl (e, c))) ↦ rw e (rw c (ground arith))
  | inr (inr (inr (e, c))) ↦ rw e (rw c (ground arith))
]

all_given-setup :
    (accepted admitted mounts network_starts : Bool) (d : DnsSetup) (n u : Bool)
    → all_given
        (setup accepted admitted mounts network_starts d n u)
        (serve_session (setup accepted admitted mounts network_starts d n u))
      ≡ true
unfolding serve_session serve_accepted serve_mounted held_after
all_given-setup false false mounts network_starts d n u = refl
all_given-setup false true mounts network_starts d n u = refl
all_given-setup true false false network_starts d n u = refl
all_given-setup true true false network_starts d n u = refl
all_given-setup true false true false d n u = ground arith
all_given-setup true true true false d n u = ground arith
all_given-setup true admitted true true d n u = all_given-dns admitted d n u

given_of_all :
    (s : Setup) (events : List Event) (r : Resource)
    → all_given s events ≡ true
    → given s events r ≡ true
given_of_all s events raw_connection h = ground arith
given_of_all s events session h = ground arith
given_of_all s events connection h = ground arith
given_of_all s events context h = ground arith
given_of_all s events filesystem h = ground arith
given_of_all s events network h = ground arith
given_of_all s events dns h = ground arith
given_of_all s events resolver h = ground arith

-- Wherever a session fails or ends, what it still holds is the file system, the proxy, the resolver's server
-- or the configuration of the resolver, and only where the call that gives this one back has failed.
pub held_after-serve_session :
    (s : Setup) (r : Resource) → held_after r false (serve_session s) ≡ true → is_kept s r ≡ true
held_after-serve_session s r h =
    let a =
      all_given-setup s.accepted s.admitted s.mounts s.network_starts s.dns s.network_stops
        s.unmounts in
    let g = given_of_all s (serve_session s) r a in ground (arith, h, g)
