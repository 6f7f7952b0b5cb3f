-- ===== src/Server/Session.antt =====
-- The phases of a session: src/server/vless_connection.cpp (the dispatch in `clientTask`,
-- `runTcpSession`, `runUdpSession`) and src/server/vless_connection_handshake.cpp (`setupVision`,
-- `setupEncryption`). How the awaited operations end is an argument.
pub mod Phases
use cppvless.Common.{
  is_empty, ℕ, Bool, true, false, not, ◌||◌, List, [], ◌∷◌, Bytes, length, ◌==◌, equal,
  if◌then◌else◌, Option, none, some, codes,
}
use cppvless.Vless.Protocol.{Request, Command, tcp, udp, mux, rvs, other}
use cppvless.Vless.Encryption.{EncryptionMethod, x25519_aes256gcm, x25519_chacha20}

-- The awaited operations of a session, in the order of the source.
pub data Phase : Type 0 where
  sends_response connects_target starts_target_task forwards_remaining relays : Phase

-- What the read of the client's public key gives, and whether the other operations succeed.
pub record Outcomes : Type 0 where
  pub client_key : Bytes
  pub responded : Bool
  pub connected : Bool
  pub forwarded : Bool
  pub relayed : Bool

abbrev pub flow_vision : Bytes
flow_vision = codes "xtls-rprx-vision"

-- `setupVision`: whether Vision is used; nothing for a flow that is not supported.
unfoldable pub setup_vision : Request → Option Bool
setup_vision req =
    if equal req.flow flow_vision then some true else if is_empty req.flow then some false else none

abbrev with_key : Bytes → EncryptionMethod → Option (Option EncryptionMethod)
with_key key m = if length key == 32 then some (some m) else none

-- `setupEncryption`: the method, if any; nothing where it returns false.
unfoldable pub setup_encryption : Bytes → Request → Option (Option EncryptionMethod)
setup_encryption key req =
    if is_empty req.encryption
    then some none
    else if equal req.encryption (codes "aes-256-gcm") || equal req.encryption (codes "aes256gcm")
    then with_key key x25519_aes256gcm
    else if equal req.encryption (codes "chacha20-poly1305")
        || equal req.encryption (codes "chacha20")
    then with_key key x25519_chacha20
    else none

-- `runTcpSession` once Vision and encryption are set up: its result, and the phases it entered.
abbrev pub tcp_phases : Outcomes → Bool × List Phase
tcp_phases o =
    if not o.responded
    then (false, sends_response ∷ [])
    else if not o.connected
    then (false, sends_response ∷ connects_target ∷ [])
    else if not o.forwarded
    then (false, sends_response ∷ connects_target ∷ starts_target_task ∷ forwards_remaining ∷ [])
    else (
      o.relayed,
      sends_response ∷ connects_target ∷ starts_target_task ∷ forwards_remaining ∷ relays ∷ [],
    )

abbrev pub set_up : Outcomes → Option Bool → Option (Option EncryptionMethod) → Bool × List Phase
set_up o none e = (false, [])
set_up o (some v) none = (false, [])
set_up o (some v) (some m) = tcp_phases o

unfoldable pub run_tcp_session : Outcomes → Request → Bool × List Phase
unfolding setup_vision setup_encryption
run_tcp_session o req = set_up o (setup_vision req) (setup_encryption o.client_key req)

abbrev pub udp_phases : Outcomes → Bool × List Phase
udp_phases o =
    if not o.responded
    then (false, sends_response ∷ [])
    else if not o.connected
    then (false, sends_response ∷ connects_target ∷ [])
    else (o.relayed, sends_response ∷ connects_target ∷ starts_target_task ∷ relays ∷ [])

unfoldable pub run_udp_session : Outcomes → Request → Bool × List Phase
run_udp_session o req =
    if not (is_empty req.flow) || not (is_empty req.encryption) then (false, []) else udp_phases o

-- `switch (req.command)`
unfoldable pub dispatch : Outcomes → Request → Command → Bool × List Phase
unfolding run_tcp_session run_udp_session
dispatch o req tcp = run_tcp_session o req
dispatch o req udp = run_udp_session o req
dispatch o req mux = (false, [])
dispatch o req rvs = (false, [])
dispatch o req (other b) = (false, [])
