-- ===== src/Transport/Dial/Agreement.antt =====
-- The client's checks of the server's answer (pkg/transport/client.go).
use colnk.Common.{
  ◌≡◌, ◌⊎◌, bytes_beq, Bool, true, false, pos, ltb_ℤ, ok, err, Error, arith, Bool-cases,
}
use colnk.Protocol.Types.{HandshakeAck}
use colnk.Protocol.Validate.{is_major}
use colnk.Transport.Accept.{error_session_active}
use colnk.Transport.Dial.{Config, check_ack, is_permanent, same_network_share}

-- The client takes an answer for a connection only if it accepts, names the major version, and either has
-- a minor version from 1 on or grants what the client asked for.
pub check_ack-ok :
    (config : Config) (session_starts : Bool) (ack out : HandshakeAck)
    → check_ack config session_starts ack ≡ ok out
    → (out ≡ ack)
      × (ack.accepted ≡ true)
      × (is_major ack.major_version ≡ true)
      × ((ltb_ℤ ack.minor_version (pos 1) ≡ false)
          ⊎ (same_network_share config.policy ack.policy ≡ true))
unfolding check_ack
check_ack-ok config session_starts ack out h = ground (
  arith,
  Bool-cases (ltb_ℤ ack.minor_version (pos 1)),
  Bool-cases (same_network_share config.policy ack.policy),
)

-- An answer after which the client will dial again is a refusal because of another session, or the start of
-- the session has failed.
pub check_ack-transient :
    (config : Config) (session_starts : Bool) (ack : HandshakeAck) (e : Error)
    → check_ack config session_starts ack ≡ err e
    → is_permanent e ≡ false
    → ((ack.accepted ≡ false) × (bytes_beq ack.error_code error_session_active ≡ true))
      ⊎ (session_starts ≡ false)
unfolding check_ack is_permanent
check_ack-transient config session_starts ack e h p =
    ground (arith, Bool-cases ack.accepted, Bool-cases session_starts)
