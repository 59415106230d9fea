-- ===== src/Transport/Accept.antt =====
-- pkg/transport/server.go: the server's end of the handshake. A raw connection is what it will still
-- deliver and what was written to it; deadlines are not modelled. Whether the context is done and whether
-- yamux starts its session are parameters, and so is the state that `admit` shares with other sessions.
pub mod Admitted
pub mod Sharing
use colnk.Common.{
  ℕ, Bytes, codes, bytes_beq, is_empty, length, List, [], ◌∷◌, Option, none, some, Bool, true,
  false, not, ◌&&◌, ◌||◌, if◌then◌else◌, nat_beq, ℤ, pos, leb_ℤ, min_ℤ, Result, ok, err, Error,
  done, failed, unauthorized, session_active, canceled, session_failed,
}
use colnk.Common.Net.{Net}
use colnk.Protocol.Types.{NetworkPolicy, Handshake, HandshakeAck, major_version, minor_version}
use colnk.Protocol.Frame.{Json, Writer, write_json, read_json}
use colnk.Protocol.Validate.{validate_handshake, validate_network_policy}

pub record Endpoint (Shared : Type 0) : Type 0 where
  pub incoming : Bytes
  pub outgoing : Writer
  pub shared : Shared

unfoldable pub same_credential : Bytes → Bytes → Bool
same_credential left right = nat_beq (length left) (length right) && bytes_beq left right

-- HandshakeErrorUnauthorized and HandshakeErrorSessionActive
abbrev pub error_unauthorized : Bytes
error_unauthorized = codes "unauthorized"

abbrev pub error_session_active : Bytes
error_session_active = codes "session_active"

abbrev no_policy : NetworkPolicy
no_policy = record {
  allowed_cidrs = [];
  allowed_ports = [];
  dns_suffixes = [];
  max_tcp_connections = pos 0;
}

abbrev pub rejection : Bytes → Bytes → HandshakeAck
rejection error_code error = record {
  accepted = false;
  error_code = error_code;
  error = error;
  major_version = pos 0;
  minor_version = pos 0;
  policy = no_policy;
}

-- The client's policy from minor version 1 on, with the server's limit of connections.
unfoldable pub effective_policy : Handshake → NetworkPolicy → NetworkPolicy
effective_policy handshake policy =
    if leb_ℤ (pos 1) handshake.minor_version
    then record handshake.policy { max_tcp_connections = policy.max_tcp_connections }
    else policy

abbrev pub acceptance : Handshake → NetworkPolicy → HandshakeAck
acceptance handshake policy = record {
  accepted = true;
  error_code = [];
  error = [];
  major_version = pos major_version;
  minor_version = min_ℤ (pos minor_version) handshake.minor_version;
  policy = policy;
}

abbrev pub is_ok {ℓ} : {A : Type ℓ} → Result A → Bool
is_ok (ok a) = true
is_ok (err e) = false

-- The connection (by its policy) or an error, and whether `admit` has admitted the session.
abbrev pub Accepted : Type 0
Accepted = Result NetworkPolicy × Bool

module _ {Network Shared : Type 0} (net : Net Network) (request_json : Json Handshake)
    (ack_json : Json HandshakeAck) (ctx_done session_starts : Bool) where
  -- `_ = protocol.WriteJSON(raw, ack)`
  unfoldable pub answer : HandshakeAck → Endpoint Shared → Endpoint Shared
  unfolding write_json
  answer ack e = elim (write_json ack_json ack e.outgoing) [
    | done _ w ↦ record e { outgoing = w }
    | failed _ w ↦ record e { outgoing = w }
  ]

  -- The acceptance and the start of the session.
  unfoldable pub accept_policy :
      Handshake → NetworkPolicy → Bool → Endpoint Shared → Accepted × Endpoint Shared
  unfolding write_json
  accept_policy handshake policy admitted e =
      elim (write_json ack_json (acceptance handshake policy) e.outgoing) [
        | failed x w ↦ ((err x, admitted), record e { outgoing = w })
        | done _ w ↦ (
          (if session_starts then ok policy else err session_failed, admitted),
          record e { outgoing = w },
        )
      ]

  -- From the choice of the effective policy on.
  unfoldable pub accept_admitted :
      Handshake → NetworkPolicy → Bool → Endpoint Shared → Accepted × Endpoint Shared
  unfolding effective_policy validate_network_policy answer accept_policy
  accept_admitted handshake policy admitted e =
      elim (validate_network_policy net (effective_policy handshake policy)) [
        | err x ↦ (
          (err x, admitted),
          answer (rejection error_unauthorized (codes "invalid network policy")) e,
        )
        | ok _ ↦ accept_policy handshake (effective_policy handshake policy) admitted e
      ]

  -- `admit`, where there is one.
  unfoldable pub admit_session :
      Option (Shared → Bool × Shared)
      → Handshake
      → NetworkPolicy
      → Endpoint Shared
      → Accepted × Endpoint Shared
  unfolding accept_admitted answer
  admit_session none handshake policy e = accept_admitted handshake policy false e
  admit_session (some admit) handshake policy e =
      let (admitted, shared) = admit e.shared in
      let e' = record e { shared = shared } in
      if admitted then accept_admitted handshake policy true e' else (
        (err session_active, false),
        answer (rejection error_session_active (codes "session already active")) e',
      )

  -- From the checks of the handshake on.
  unfoldable pub accept_handshake :
      Bytes
      → Option (Shared → Bool × Shared)
      → NetworkPolicy
      → Handshake
      → Endpoint Shared
      → Accepted × Endpoint Shared
  unfolding validate_handshake same_credential admit_session answer
  accept_handshake credential admit policy handshake e =
      if not (is_ok (validate_handshake net handshake))
        || not (same_credential handshake.api_key credential)
      then (
        (err unauthorized, false),
        answer (rejection error_unauthorized (codes "unauthorized")) e,
      )
      else if ctx_done
      then ((err canceled, false), e)
      else admit_session admit handshake policy e

  unfoldable pub accept_when :
      Bytes
      → NetworkPolicy
      → Option (Shared → Bool × Shared)
      → Endpoint Shared
      → Accepted × Endpoint Shared
  unfolding read_json accept_handshake
  accept_when credential policy admit e = elim (read_json request_json e.incoming) [
    | failed x rest ↦ ((err x, false), record e { incoming = rest })
    | done handshake rest ↦
        accept_handshake credential admit policy handshake (record e { incoming = rest })
  ]

  unfoldable pub accept :
      Bytes → NetworkPolicy → Endpoint Shared → Result NetworkPolicy × Endpoint Shared
  unfolding accept_when
  accept credential policy e =
      let ((result, _), e') = accept_when credential policy none e in (result, e')
