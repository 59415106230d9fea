-- ===== src/Transport/Dial.antt =====
-- pkg/transport/client.go: the client's end of the handshake. The connection that the dialler opens, and
-- whether yamux starts its session, are parameters; deadlines are not modelled.
pub mod Agreement
use colnk.Common.{
  Bytes, codes, bytes_beq, is_empty, List, [], ◌∷◌, Option, none, some, Bool, true, false, not,
  ◌&&◌, ◌||◌, if◌then◌else◌, has_prefix, pos, ltb_ℤ, Result, ok, err, Error, done, failed,
  permanent, invalid_endpoint, dial_failed, rejected, incompatible_version, unsupported_policy,
  session_failed, bytes_eq,
}
use colnk.Common.Net.{split_host_port}
use colnk.Protocol.Types.{NetworkPolicy, Handshake, HandshakeAck, major_version, minor_version}
use colnk.Protocol.Frame.{Json, Writer, write_json, read_json}
use colnk.Protocol.Validate.{is_major}
use colnk.Transport.Accept.{error_session_active}

pub record Config : Type 0 where
  pub endpoint : Bytes
  pub credential : Bytes
  pub policy : NetworkPolicy

unfoldable pub is_permanent : Error → Bool
is_permanent (permanent e) = true
is_permanent _ = false

-- strings.Contains(s, t)
unfoldable pub contains_text : Bytes → Bytes → Bool
contains_text [] t = has_prefix [] t
contains_text (c ∷ s) t = has_prefix (c ∷ s) t || contains_text s t

unfoldable pub endpoint_address : Bytes → Result Bytes
unfolding contains_text split_host_port
endpoint_address endpoint =
    if is_empty endpoint || contains_text endpoint (codes "://")
    then err invalid_endpoint
    else elim (split_host_port endpoint) [
      | none ↦ err invalid_endpoint
      | some (host, port) ↦
          if is_empty host || is_empty port then err invalid_endpoint else ok endpoint
    ]

-- slices.Equal
unfoldable pub texts_beq : List Bytes → List Bytes → Bool
texts_beq [] [] = true
texts_beq (s ∷ ss) (t ∷ ts) = bytes_beq s t && texts_beq ss ts
texts_beq _ _ = false

unfoldable pub same_network_share : NetworkPolicy → NetworkPolicy → Bool
unfolding texts_beq
same_network_share requested effective =
    texts_beq requested.allowed_cidrs effective.allowed_cidrs
    && (bytes_beq requested.allowed_ports effective.allowed_ports
        && texts_beq requested.dns_suffixes effective.dns_suffixes)

abbrev pub hello : Config → Handshake
hello config = record {
  major_version = pos major_version;
  minor_version = pos minor_version;
  api_key = config.credential;
  policy = config.policy;
}

-- The checks of the answer.
unfoldable pub check_ack : Config → Bool → HandshakeAck → Result HandshakeAck
unfolding same_network_share
check_ack config session_starts ack =
    if not ack.accepted
    then if bytes_beq ack.error_code error_session_active
      then err rejected
      else err (permanent rejected)
    else if not (is_major ack.major_version)
    then err (permanent incompatible_version)
    else if ltb_ℤ ack.minor_version (pos 1) && not (same_network_share config.policy ack.policy)
    then err (permanent unsupported_policy)
    else if session_starts
    then ok ack
    else err session_failed

module _ (request_json : Json Handshake) (ack_json : Json HandshakeAck)
    (session_starts : Bool) where
  -- On an open connection: what the other end sends, and what is written to it.
  unfoldable pub dial_raw : Config → Bytes → Writer → Result HandshakeAck
  unfolding write_json read_json check_ack
  dial_raw config incoming outgoing = elim (write_json request_json (hello config) outgoing) [
    | failed x _ ↦ err x
    | done _ _ ↦ elim (read_json ack_json incoming) [
      | failed x _ ↦ err x
      | done ack _ ↦ check_ack config session_starts ack
    ]
  ]

  -- `dial` opens a connection to an address, or fails.
  unfoldable pub dial : (Bytes → Option (Bytes × Writer)) → Config → Result HandshakeAck
  unfolding endpoint_address dial_raw
  dial open_raw config = elim (endpoint_address config.endpoint) [
    | err x ↦ err (permanent x)
    | ok address ↦ elim (open_raw address) [
      | none ↦ err dial_failed
      | some (incoming, outgoing) ↦ dial_raw config incoming outgoing
    ]
  ]
