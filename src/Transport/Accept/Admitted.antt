-- ===== src/Transport/Accept/Admitted.antt =====
-- Who is accepted by AcceptWhen (pkg/transport/server.go), and what the others leave behind.
use colnk.Common.{
  ◌≡◌, ◌≢◌, refl, codes, ◌⊎◌, inl, inr, Bytes, bytes_beq_iff, Option, none, some, Bool, true, false,
  if◌then◌else◌, pos, leb_ℤ, ok, err, Error, Outcome, done, failed, unauthorized, arith, Bool-cases,
  Result-cases,
}
use colnk.Common.Net.{Net}
use colnk.Protocol.Types.{NetworkPolicy, Handshake, HandshakeAck}
use colnk.Protocol.Frame.{Json, Writer, write_json, read_json}
use colnk.Protocol.Validate.{validate_handshake, validate_network_policy}
use colnk.Transport.Accept.{
  Endpoint, same_credential, effective_policy, acceptance, answer, accept_policy, accept_admitted,
  admit_session, accept_handshake, accept_when, rejection, error_unauthorized,
}

pub read_cases :
    (o : Outcome Bytes Handshake)
    → ((h : Handshake) × (rest : Bytes) × (o ≡ done h rest))
      ⊎ ((x : Error) × (rest : Bytes) × (o ≡ failed x rest))
read_cases (done h rest) = inl (h, rest, refl)
read_cases (failed x rest) = inr (x, rest, refl)

pub Outcome-cases :
    (o : Outcome Writer (Unit {0}))
    → ((w : Writer) × (o ≡ done tt w)) ⊎ ((x : Error) × (w : Writer) × (o ≡ failed x w))
Outcome-cases (done _ w) = inl (w, refl)
Outcome-cases (failed x w) = inr (x, w, refl)

-- What a connection that was accepted is.
abbrev pub IsAccepted :
    {Network : Type 0} → Net Network → Bytes → NetworkPolicy → Handshake → NetworkPolicy → Type 0
IsAccepted net credential policy handshake effective =
    (validate_handshake net handshake ≡ ok tt)
    × (handshake.api_key ≡ credential)
    × (effective ≡ effective_policy handshake policy)
    × (validate_network_policy net effective ≡ ok tt)
    × (effective.max_tcp_connections ≡ policy.max_tcp_connections)

max-effective_policy :
    (handshake : Handshake) (policy : NetworkPolicy)
    → (effective_policy handshake policy).max_tcp_connections ≡ policy.max_tcp_connections
unfolding effective_policy
max-effective_policy handshake policy =
    elim (leb_ℤ (pos 1) handshake.minor_version)
      as (λ b.
        (if b
          then record handshake.policy { max_tcp_connections = policy.max_tcp_connections }
          else policy).max_tcp_connections
        ≡ policy.max_tcp_connections) [ true ↦ refl | false ↦ refl ]

module _ {Network Shared : Type 0} (net : Net Network) (request_json : Json Handshake)
    (ack_json : Json HandshakeAck) (ctx_done session_starts : Bool) where
  accept_policy-ok :
      (handshake : Handshake) (policy p : NetworkPolicy) (admitted a : Bool)
      (e e' : Endpoint Shared)
      → accept_policy net request_json ack_json ctx_done session_starts handshake policy admitted e
        ≡ ((ok p, a), e')
      → (p ≡ policy) × (a ≡ admitted)
  unfolding accept_policy
  accept_policy-ok handshake policy p admitted a e e' h =
      elim (Outcome-cases (write_json ack_json (acceptance handshake policy) e.outgoing)) [
        | inl (w, q) ↦ ground (arith, q)
        | inr (x, w, q) ↦ ground (arith, q)
      ]

  accept_admitted-ok :
      (handshake : Handshake) (policy p : NetworkPolicy) (admitted a : Bool)
      (e e' : Endpoint Shared)
      → accept_admitted net request_json ack_json ctx_done session_starts handshake policy admitted
          e
        ≡ ((ok p, a), e')
      → (p ≡ effective_policy handshake policy)
        × (validate_network_policy net p ≡ ok tt)
        × (a ≡ admitted)
  unfolding accept_admitted
  accept_admitted-ok handshake policy p admitted a e e' h =
      elim (Result-cases (validate_network_policy net (effective_policy handshake policy))) [
        | inr (x, q) ↦ ground (arith, q)
        | inl (u, q) ↦ ground (
          arith,
          q,
          accept_policy-ok handshake (effective_policy handshake policy) p admitted a e e',
        )
      ]

  admit_session-ok :
      (admit : Option (Shared → Bool × Shared)) (handshake : Handshake) (policy p : NetworkPolicy)
      (a : Bool) (e e' : Endpoint Shared)
      → admit_session net request_json ack_json ctx_done session_starts admit handshake policy e
        ≡ ((ok p, a), e')
      → (p ≡ effective_policy handshake policy) × (validate_network_policy net p ≡ ok tt)
  unfolding admit_session
  admit_session-ok none handshake policy p a e e' h =
      ground (arith, accept_admitted-ok handshake policy p false a e e' h)
  admit_session-ok (some admit) handshake policy p a e e' h =
      elim (Bool-cases ((admit e.shared).0)) [
        | inl q ↦ ground (
          arith,
          q,
          accept_admitted-ok handshake policy p true a (record e { shared = (admit e.shared).1 })
              e',
        )
        | inr q ↦ ground (arith, q)
      ]

  pub accept_handshake-ok :
      (credential : Bytes) (admit : Option (Shared → Bool × Shared)) (policy p : NetworkPolicy)
      (handshake : Handshake) (a : Bool) (e e' : Endpoint Shared)
      → accept_handshake net request_json ack_json ctx_done session_starts credential admit policy
          handshake e
        ≡ ((ok p, a), e')
      → IsAccepted net credential policy handshake p
  unfolding accept_handshake same_credential
  accept_handshake-ok credential admit policy p handshake a e e' h =
      elim (Result-cases (validate_handshake net handshake)) [
        | inr (x, q) ↦ ground (arith, q)
        | inl (u, q) ↦ elim (Bool-cases (same_credential handshake.api_key credential)) [
          | inr r ↦ ground (arith, q, r)
          | inl r ↦
              let k : admit_session net request_json ack_json ctx_done session_starts admit
                    handshake policy e
                  ≡ ((ok p, a), e') =
                ground (arith, q, r) in
              let (w, v) = admit_session-ok admit handshake policy p a e e' k in
              (
                q,
                ground (arith, r, bytes_beq_iff handshake.api_key credential),
                w,
                v,
                rw w (max-effective_policy handshake policy),
              )
        ]
      ]

  -- AcceptWhen returns a connection only for a handshake that it read from the peer, that is valid and
  -- whose key is the credential; the policy of the connection is the effective policy of that handshake,
  -- is valid, and has the server's limit of connections.
  pub accept_when-ok :
      (credential : Bytes) (admit : Option (Shared → Bool × Shared)) (policy p : NetworkPolicy)
      (a : Bool) (e e' : Endpoint Shared)
      → accept_when net request_json ack_json ctx_done session_starts credential policy admit e
        ≡ ((ok p, a), e')
      → (handshake : Handshake) × (rest : Bytes) × (read_json request_json e.incoming
          ≡ done handshake rest)
        × IsAccepted net credential policy handshake p
  unfolding accept_when
  accept_when-ok credential admit policy p a e e' h =
      let o : Outcome Bytes Handshake = read_json request_json e.incoming in
      elim (read_cases o) [
        | inr (x, w, q) ↦ ground (arith, q)
        | inl (handshake, rest, q) ↦ (
          handshake,
          rest,
          q,
          accept_handshake-ok credential admit policy p handshake a (record e { incoming = rest })
              e' (ground (arith, q)),
        )
      ]

  -- A peer whose handshake does not carry the credential is unauthorized, and neither admits a session
  -- nor changes what the sessions share.
  pub accept_when-unauthorized :
      (credential : Bytes) (admit : Option (Shared → Bool × Shared)) (policy : NetworkPolicy)
      (handshake : Handshake) (rest : Bytes) (e : Endpoint Shared)
      → read_json request_json e.incoming ≡ done handshake rest
      → handshake.api_key ≢ credential
      → (w : Writer) × (accept_when net request_json ack_json ctx_done session_starts credential
            policy admit e
          ≡ (
            (err unauthorized, false),
            record { incoming = rest; outgoing = w; shared = e.shared },
          ))
  unfolding accept_when accept_handshake same_credential answer
  accept_when-unauthorized credential admit policy handshake rest e h ne =
      elim (Outcome-cases
        (write_json ack_json (rejection error_unauthorized (codes "unauthorized")) e.outgoing)) [
          | inl (w, q) ↦ (w, ground (arith, h, q, bytes_beq_iff handshake.api_key credential))
          | inr (x, w, q) ↦ (w, ground (arith, h, q, bytes_beq_iff handshake.api_key credential))
        ]
