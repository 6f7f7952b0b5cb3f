-- ===== src/Server/EncryptedRelay.antt =====
-- The encryption mode of `forwardHandshakeRemaining` and `relayClientToTarget`
-- (src/server/vless_connection_relay_tcp.cpp) and of `targetTask`
-- (src/server/vless_connection_target_task.cpp): every read is one text. What the reads return is a
-- list, behind whose end every read returns EOF. `write` says whether a write had a positive result,
-- `shutdown_write` is `shutdownWrite` of the same stream, and `closed_` is false as long as the
-- loops run.
pub mod Delivered
use cppvless.Common.{Bool, true, false, List, [], ◌∷◌, Bytes, if◌then◌else◌, Option, none, some}
use cppvless.Coro.BufferedStream.{RecvResult, received, eof, error}
use cppvless.Vless.Encryption.{Openssl, EncryptionSession, decrypt_client, encrypt_server}
use cppvless.Server.UdpRelay.{send}

module _ (ssl : Openssl) {T : Type 0} (write : T → Bytes → Bool × T) (shutdown_write : T → T) where
  -- A text that cannot be opened ends the relay.
  abbrev pub opened_sent : Option Bytes → T → Bool × T
  opened_sent none t = (false, t)
  opened_sent (some plain) t = send write t plain

  unfoldable pub relay_encrypted : EncryptionSession → List RecvResult → T → Bool × T
  unfolding decrypt_client
  relay_encrypted s [] t = (true, shutdown_write t)
  relay_encrypted s (eof ∷ rs) t = (true, shutdown_write t)
  relay_encrypted s (error e ∷ rs) t = (false, shutdown_write t)
  relay_encrypted s (received d ∷ rs) t =
      let w = opened_sent (decrypt_client ssl s d) t in
      let more = relay_encrypted s rs w.1 in if w.0 then more else (false, w.1)

  -- What is left of the handshake, and then the relay.
  unfoldable pub forward_encrypted : EncryptionSession → Bytes → List RecvResult → T → Bool × T
  unfolding relay_encrypted decrypt_client
  forward_encrypted s [] rs t = relay_encrypted s rs t
  forward_encrypted s (b ∷ bs) rs t =
      let w = opened_sent (decrypt_client ssl s (b ∷ bs)) t in
      let more = relay_encrypted s rs w.1 in if w.0 then more else (false, w.1)

  -- A result of 0 of `encryptServer` ends the relay.
  abbrev pub sealed_sent : Option Bytes → T → Bool × T
  sealed_sent none t = (false, t)
  sealed_sent (some cipher) t = write t cipher

  -- The branch of `targetTask`.
  unfoldable pub respond_encrypted : EncryptionSession → List RecvResult → T → Bool × T
  unfolding encrypt_server
  respond_encrypted s [] t = (true, shutdown_write t)
  respond_encrypted s (eof ∷ rs) t = (true, shutdown_write t)
  respond_encrypted s (error e ∷ rs) t = (false, shutdown_write t)
  respond_encrypted s (received d ∷ rs) t =
      let e = encrypt_server ssl s d in
      let w = sealed_sent e.0 t in
      let more = respond_encrypted e.1 rs w.1 in if w.0 then more else (false, w.1)
