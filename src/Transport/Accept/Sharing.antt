-- ===== src/Transport/Accept/Sharing.antt =====
-- When AcceptWhen (pkg/transport/server.go) asks `admit`, and what it does to the shared state.
use colnk.Common.{
  ◌≡◌, refl, ◌⊎◌, inl, inr, codes, Bytes, some, Bool, true, false, if◌then◌else◌, Result, arith,
  Bool-cases, Result-cases,
}
use colnk.Common.Net.{Net}
use colnk.Protocol.Types.{NetworkPolicy, Handshake, HandshakeAck}
use colnk.Protocol.Frame.{Json, write_json, read_json}
use colnk.Protocol.Validate.{validate_network_policy}
use colnk.Transport.Accept.{
  Endpoint, Accepted, rejection, error_session_active, effective_policy, acceptance, answer,
  accept_policy, accept_admitted, admit_session, accept_handshake, accept_when,
}
use colnk.Transport.Accept.Admitted.{Outcome-cases, read_cases}

if_both {ℓ κ} :
    {A : Type ℓ} (P : A → Type κ) (b : Bool) (x y : A) → P x → P y → P (if b then x else y)
if_both P true x y hx hy = hx
if_both P false x y hx hy = hy

module _ {Network Shared : Type 0} (net : Net Network) (request_json : Json Handshake)
    (ack_json : Json HandshakeAck) (ctx_done session_starts : Bool) (credential : Bytes)
    (policy : NetworkPolicy) where
  shared-answer :
      (ack : HandshakeAck) (e : Endpoint Shared)
      → (answer net request_json ack_json ctx_done session_starts ack e).shared ≡ e.shared
  unfolding answer
  shared-answer ack e = elim (Outcome-cases (write_json ack_json ack e.outgoing)) [
    | inl (w, q) ↦ ground (arith, q)
    | inr (x, w, q) ↦ ground (arith, q)
  ]

  accept_policy-shared :
      (handshake : Handshake) (p : NetworkPolicy) (admitted : Bool) (e : Endpoint Shared)
      → ((accept_policy net request_json ack_json ctx_done session_starts handshake p admitted
            e).0.1
          ≡ admitted)
        × ((accept_policy net request_json ack_json ctx_done session_starts handshake p admitted
              e).1.shared
            ≡ e.shared)
  unfolding accept_policy
  accept_policy-shared handshake p admitted e =
      elim (Outcome-cases (write_json ack_json (acceptance handshake p) e.outgoing)) [
        | inl (w, q) ↦ ground (arith, q)
        | inr (x, w, q) ↦ ground (arith, q)
      ]

  accept_admitted-shared :
      (handshake : Handshake) (admitted : Bool) (e : Endpoint Shared)
      → ((accept_admitted net request_json ack_json ctx_done session_starts handshake policy
            admitted e).0.1
          ≡ admitted)
        × ((accept_admitted net request_json ack_json ctx_done session_starts handshake policy
              admitted e).1.shared
            ≡ e.shared)
  unfolding accept_admitted
  accept_admitted-shared handshake admitted e =
      elim (Result-cases (validate_network_policy net (effective_policy handshake policy))) [
        | inl (u, q) ↦ ground (
          arith,
          q,
          accept_policy-shared handshake (effective_policy handshake policy) admitted e,
        )
        | inr (x, q) ↦ ground (arith, q, shared-answer _ e)
      ]

  module _ (admit : Shared → Bool × Shared) where
    -- Where `admit` was asked, its answer and its state are those of the result.
    abbrev Asked : Endpoint Shared → Accepted × Endpoint Shared → Type 0
    Asked e out = (out.0.1 ≡ (admit e.shared).0) × (out.1.shared ≡ (admit e.shared).1)

    admit_session-Asked :
        (handshake : Handshake) (e : Endpoint Shared)
        → Asked e (
            admit_session net request_json ack_json ctx_done session_starts
              (some admit)
              handshake
              policy
              e)
    unfolding admit_session
    admit_session-Asked handshake e = elim (Bool-cases ((admit e.shared).0)) [
      | inl q ↦ ground (
        arith,
        q,
        accept_admitted-shared handshake true (record e { shared = (admit e.shared).1 }),
      )
      | inr q ↦ ground (
        arith,
        q,
        shared-answer (rejection error_session_active (codes "session already active"))
            (record e { shared = (admit e.shared).1 }),
      )
    ]

    -- Where it was not, the session is not admitted and the state is the old one.
    abbrev Untouched : Endpoint Shared → Accepted × Endpoint Shared → Type 0
    Untouched e out = (out.0.1 ≡ false) × (out.1.shared ≡ e.shared)

    accept_handshake-cases :
        (handshake : Handshake) (e : Endpoint Shared)
        → Asked e (
            accept_handshake net request_json ack_json ctx_done session_starts credential
              (some admit)
              policy
              handshake
              e)
          ⊎ Untouched e (
              accept_handshake net request_json ack_json ctx_done session_starts credential
                (some admit)
                policy
                handshake
                e)
    unfolding accept_handshake
    accept_handshake-cases handshake e =
        if_both (λ out. Asked e out ⊎ Untouched e out) _ _ _ (inr (refl, shared-answer _ e))
          (if_both (λ out. Asked e out ⊎ Untouched e out) ctx_done _ _ (inr (refl, refl))
            (inl (admit_session-Asked handshake e)))

    accept_when-cases :
        (e : Endpoint Shared)
        → Asked e (
            accept_when net request_json ack_json ctx_done session_starts credential policy
              (some admit)
              e)
          ⊎ Untouched e (
              accept_when net request_json ack_json ctx_done session_starts credential policy
                (some admit)
                e)
    unfolding accept_when
    accept_when-cases e = elim (read_cases (read_json request_json e.incoming)) [
      | inl (handshake, rest, q) ↦
          ground (arith, q, accept_handshake-cases handshake (record e { incoming = rest }))
      | inr (x, rest, q) ↦ ground (arith, q)
    ]

    module _ (r : Result NetworkPolicy) (e e' : Endpoint Shared) where
      -- A session counts as admitted only if `admit` has consented, and then the shared state is the one
      -- that `admit` left.
      pub accept_when-admitted :
          accept_when net request_json ack_json ctx_done session_starts credential policy
              (some admit)
              e
            ≡ ((r, true), e')
          → ((admit e.shared).0 ≡ true) × (e'.shared ≡ (admit e.shared).1)
      accept_when-admitted h = ground (arith, accept_when-cases e)

      pub accept_when-refused :
          accept_when net request_json ack_json ctx_done session_starts credential policy
              (some admit)
              e
            ≡ ((r, false), e')
          → (((admit e.shared).0 ≡ false) × (e'.shared ≡ (admit e.shared).1))
            ⊎ (e'.shared ≡ e.shared)
      accept_when-refused h = ground (arith, accept_when-cases e)
