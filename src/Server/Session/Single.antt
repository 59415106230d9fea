-- ===== src/Server/Session/Single.antt =====
-- Sessions of the server side by side, as an interleaving of their steps (pkg/server/session.go).
use colnk.Common.{ℕ, ◌+◌, ◌≤◌, ◌≡◌, Bytes, Bool, true, false, some, Result, arith}
use colnk.Common.Net.{Net}
use colnk.Protocol.Types.{NetworkPolicy, Handshake, HandshakeAck}
use colnk.Protocol.Frame.{Json}
use colnk.Server.Session.{admit, release}
use colnk.Transport.Accept.{Endpoint, accept_when}
use colnk.Transport.Accept.Sharing.{accept_when-admitted, accept_when-refused}

-- `sessionState.active`, and the number of sessions that were admitted and have not released it.
pub record Sessions : Type 0 where
  pub active : Bool
  pub serving : ℕ

abbrev count : Bool → ℕ
count true = 1
count false = 0

module _ {Network : Type 0} (net : Net Network) (request_json : Json Handshake)
    (ack_json : Json HandshakeAck) (credential : Bytes) (policy : NetworkPolicy) where
  -- A connection is accepted or refused, or an admitted session releases.
  pub data Step : Sessions → Sessions → Type 0 where
    admitted_session :
        (s : Sessions) (ctx_done session_starts : Bool) (e e' : Endpoint Bool)
        (r : Result NetworkPolicy)
        → e.shared ≡ s.active
        → accept_when net request_json ack_json ctx_done session_starts credential policy
            (some admit)
            e
          ≡ ((r, true), e')
        → Step s (record { active = e'.shared; serving = s.serving + 1 })
    refused_session :
        (s : Sessions) (ctx_done session_starts : Bool) (e e' : Endpoint Bool)
        (r : Result NetworkPolicy)
        → e.shared ≡ s.active
        → accept_when net request_json ack_json ctx_done session_starts credential policy
            (some admit)
            e
          ≡ ((r, false), e')
        → Step s (record s { active = e'.shared })
    released_session :
        (s : Sessions) (n : ℕ)
        → s.serving ≡ n + 1
        → Step s (record { active = release s.active; serving = n })

  pub data Steps : Sessions → Sessions → Type 0 where
    here : (s : Sessions) → Steps s s
    after : (s t u : Sessions) → Step s t → Steps t u → Steps s u

  -- `active` says whether a session is served, and there is no second one.
  abbrev pub IsSingle : Sessions → Type 0
  IsSingle s = s.serving ≡ count s.active

  Step-IsSingle : (s t : Sessions) → Step s t → IsSingle s → IsSingle t
  unfolding admit release
  Step-IsSingle _ _ (admitted_session s c st e e' r q h) i =
      ground (
        arith,
        accept_when-admitted net request_json ack_json c st credential policy admit r e e' h,
      )
  Step-IsSingle _ _ (refused_session s c st e e' r q h) i =
      ground
        (arith, accept_when-refused net request_json ack_json c st credential policy admit r e e' h)
  Step-IsSingle _ _ (released_session s n h) i = ground arith

  -- However connections and ends of sessions follow each other, at most one session is served.
  pub Steps-serving : (s t : Sessions) → Steps s t → IsSingle s → t.serving ≤ 1
  Steps-serving _ _ (here s) i = ground arith
  Steps-serving _ _ (after s t u h hs) i = Steps-serving t u hs (Step-IsSingle s t h i)
