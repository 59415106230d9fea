-- ===== src/Transport/Handshake.antt =====
-- The handshake from one end to the other: what pkg/transport/client.go writes is what pkg/transport/server.go
-- reads, and the other way round.
use mathlib.Core.Path.{subst}
use colnk.Common.{
  ◌≡◌, refl, ap, sym, ◌∙◌, [], ◌++◌, append-nil, Bytes, Option, none, some, Bool, true, false, ok,
  done, arith, Bool-cases, Result-cases, inl, inr,
}
use colnk.Common.Net.{Net}
use colnk.Common.Utf8.{continues}
use colnk.Protocol.Types.{NetworkPolicy, Handshake, HandshakeAck}
use colnk.Protocol.Texts.{IsUtf8Policy, IsUtf8Handshake, IsUtf8Ack}
use colnk.Protocol.Frame.{Json, JsonLaws, Writer, write_json, read_json}
use colnk.Protocol.Frame.RoundTrip.{frame, read_json-frame, write_json_done}
use colnk.Protocol.Validate.{validate_handshake, validate_network_policy}
use colnk.Transport.Accept.{
  Endpoint, same_credential, effective_policy, acceptance, accept_policy, accept_admitted,
  admit_session, accept_handshake, accept_when,
}
use colnk.Transport.Accept.Admitted.{Outcome-cases, accept_handshake-ok}
use colnk.Transport.Dial.{Config, hello, check_ack, dial_raw}

-- What was written on a fresh connection is what is read from it.
json-read :
    {A : Type 0} (IsPassed : A → Type 0) (j : Json A)
    → JsonLaws IsPassed j
    → (v : A) (w w' : Writer) → IsPassed v
    → w.written ≡ []
    → write_json j v w ≡ done tt w'
    → read_json j w'.written ≡ done v []
json-read IsPassed j laws v w w' u fresh h =
    let (d, m, fits, out) = write_json_done j v w w' h in
    let sent : w'.written ≡ frame d ++ [] = cc (out, fresh, append-nil (frame d)) in
    ap (read_json j) sent ∙ read_json-frame IsPassed j laws v d [] u m fits

-- The client's checks on the server's acceptance of its own handshake.
check_ack-acceptance :
    (config : Config) (p : NetworkPolicy)
    → check_ack config true (acceptance (hello config) p) ≡ ok (acceptance (hello config) p)
unfolding check_ack
check_ack-acceptance config p = refl

effective_policy-hello :
    (config : Config) (policy : NetworkPolicy)
    → effective_policy (hello config) policy
      ≡ record config.policy { max_tcp_connections = policy.max_tcp_connections }
unfolding effective_policy
effective_policy-hello config policy = refl

dial_raw-done :
    (request_json : Json Handshake) (ack_json : Json HandshakeAck) (config : Config) (w w' : Writer)
    (incoming : Bytes) (p : NetworkPolicy)
    → write_json request_json (hello config) w ≡ done tt w'
    → read_json ack_json incoming ≡ done (acceptance (hello config) p) []
    → dial_raw request_json ack_json true config incoming w ≡ ok (acceptance (hello config) p)
unfolding dial_raw
dial_raw-done request_json ack_json config w w' incoming p h k =
    ground (arith, h, k, check_ack-acceptance config p)

module _ {Network Shared : Type 0} (net : Net Network) (request_json : Json Handshake)
    (ack_json : Json HandshakeAck) (ctx_done session_starts : Bool) where
  -- Where the server accepts, it has written its acceptance with the policy of the connection.
  accept_policy-written :
      (handshake : Handshake) (policy p : NetworkPolicy) (admitted a : Bool)
      (e e' : Endpoint Shared)
      → accept_policy net request_json ack_json ctx_done session_starts handshake policy admitted e
        ≡ ((ok p, a), e')
      → write_json ack_json (acceptance handshake p) e.outgoing ≡ done tt e'.outgoing
  unfolding accept_policy
  accept_policy-written handshake policy p admitted a e e' h =
      elim (Outcome-cases (write_json ack_json (acceptance handshake policy) e.outgoing)) [
        | inl (w, q) ↦ ground (arith, q, h)
        | inr (x, w, q) ↦ ground (arith, q, h)
      ]

  accept_admitted-written :
      (handshake : Handshake) (policy p : NetworkPolicy) (admitted a : Bool)
      (e e' : Endpoint Shared)
      → accept_admitted net request_json ack_json ctx_done session_starts handshake policy admitted
          e
        ≡ ((ok p, a), e')
      → write_json ack_json (acceptance handshake p) e.outgoing ≡ done tt e'.outgoing
  unfolding accept_admitted
  accept_admitted-written handshake policy p admitted a e e' h =
      elim (Result-cases (validate_network_policy net (effective_policy handshake policy))) [
        | inr (x, q) ↦ ground (arith, q)
        | inl (u, q) ↦
            accept_policy-written handshake (effective_policy handshake policy) p admitted a e e'
              (ground (arith, q))
      ]

  admit_session-written :
      (admit : Option (Shared → Bool × Shared)) (handshake : Handshake) (policy p : NetworkPolicy)
      (a : Bool) (e e' : Endpoint Shared)
      → admit_session net request_json ack_json ctx_done session_starts admit handshake policy e
        ≡ ((ok p, a), e')
      → write_json ack_json (acceptance handshake p) e.outgoing ≡ done tt e'.outgoing
  unfolding admit_session
  admit_session-written none handshake policy p a e e' h =
      accept_admitted-written handshake policy p false a e e' h
  admit_session-written (some admit) handshake policy p a e e' h =
      elim (Bool-cases ((admit e.shared).0)) [
        | inl q ↦
            accept_admitted-written handshake policy p true a
              (record e { shared = (admit e.shared).1 }) e' (ground (arith, q))
        | inr q ↦ ground (arith, q)
      ]

  accept_handshake-written :
      (credential : Bytes) (admit : Option (Shared → Bool × Shared)) (policy p : NetworkPolicy)
      (handshake : Handshake) (a : Bool) (e e' : Endpoint Shared)
      → accept_handshake net request_json ack_json ctx_done session_starts credential admit policy
          handshake e
        ≡ ((ok p, a), e')
      → write_json ack_json (acceptance handshake p) e.outgoing ≡ done tt e'.outgoing
  unfolding accept_handshake
  accept_handshake-written credential admit policy p handshake a e e' h =
      elim (Result-cases (validate_handshake net handshake)) [
        | inr (x, q) ↦ ground (arith, q)
        | inl (u, q) ↦ elim (Bool-cases (same_credential handshake.api_key credential)) [
          | inr r ↦ ground (arith, q, r)
          | inl r ↦ admit_session-written admit handshake policy p a e e' (ground (arith, q, r))
        ]
      ]

  read_done :
      (credential : Bytes) (policy p : NetworkPolicy) (admit : Option (Shared → Bool × Shared))
      (a : Bool) (e e' : Endpoint Shared) (handshake : Handshake) (rest : Bytes)
      → read_json request_json e.incoming ≡ done handshake rest
      → accept_when net request_json ack_json ctx_done session_starts credential policy admit e
        ≡ ((ok p, a), e')
      → accept_handshake net request_json ack_json ctx_done session_starts credential admit policy
          handshake
          (record e { incoming = rest })
        ≡ ((ok p, a), e')
  unfolding accept_when
  read_done credential policy p admit a e e' handshake rest q h = ground (arith, q, h)

  -- Where the server accepts a connection on which the client has written its handshake and nothing else, the
  -- client accepts what the server has written, with the policy of the server's connection; that is the policy
  -- that the client asked for with the server's limit of connections, and the client's credential is the
  -- server's, if the texts of the handshake are valid UTF-8 and JSON passes such texts on.
  pub dial_raw-accept_when :
      JsonLaws IsUtf8Handshake request_json
      → JsonLaws IsUtf8Ack ack_json
      → (config : Config) (credential : Bytes) (policy p : NetworkPolicy)
        (admit : Option (Shared → Bool × Shared)) (a : Bool) (w w' : Writer)
        (e e' : Endpoint Shared)
      → IsUtf8Handshake (hello config)
      → w.written ≡ []
      → e.outgoing.written ≡ []
      → write_json request_json (hello config) w ≡ done tt w'
      → e.incoming ≡ w'.written
      → accept_when net request_json ack_json ctx_done session_starts credential policy admit e
        ≡ ((ok p, a), e')
      → (dial_raw request_json ack_json true config e'.outgoing.written w
          ≡ ok (acceptance (hello config) p))
        × (p ≡ record config.policy { max_tcp_connections = policy.max_tcp_connections })
        × (config.credential ≡ credential)
  unfolding continues
  dial_raw-accept_when requests acks config credential policy p admit a w w' e e' u f g sent i h =
      let r : read_json request_json e.incoming ≡ done (hello config) [] =
        ap (read_json request_json) i
        ∙ json-read IsUtf8Handshake request_json requests (hello config) w w' u f sent in
      let k = read_done credential policy p admit a e e' (hello config) [] r h in
      let (_, key, eff, _, _) =
        accept_handshake-ok net request_json ack_json ctx_done session_starts credential admit
          policy p (hello config) a (record e { incoming = [] }) e' k in
      let same : p ≡ record config.policy { max_tcp_connections = policy.max_tcp_connections } =
        eff ∙ effective_policy-hello config policy in
      let texts : IsUtf8Ack (acceptance (hello config) p) =
        (refl, refl, subst IsUtf8Policy (sym same) u.1) in
      let written =
        accept_handshake-written credential admit policy p (hello config) a
          (record e { incoming = [] }) e' k in
      let back =
        json-read IsUtf8Ack ack_json acks (acceptance (hello config) p) e.outgoing e'.outgoing texts
          g written in
      (dial_raw-done request_json ack_json config w w' e'.outgoing.written p sent back, same, key)
