-- ===== src/Server/TcpRelay.antt =====
-- src/server/vless_connection_relay_tcp.cpp in the Vision mode: what is left of the handshake, and
-- the reads after it, go through the reader to the target. What the reads return is a list, behind
-- whose end every read returns EOF. `write` says whether a write had a positive result, and
-- `shutdown_write` is `shutdownWrite` of the same stream. The changes that the other direction
-- makes to the shared context do not touch what the reader gives, and `closed_` is false as long as
-- the loop runs.
pub mod Delivered
use cppvless.Common.{ℕ, Bool, true, false, List, [], ◌∷◌, Bytes, if◌then◌else◌, Option}
use cppvless.Coro.BufferedStream.{RecvResult, received, eof, error}
use cppvless.Vision.Context.{VisionContext}
use cppvless.Vision.Reader.{VisionReader, Processed, process}
use cppvless.Server.UdpRelay.{send}

-- `if (!visionReader_->directCopy()) data = visionReader_->process(data);`
abbrev pub unpadded : VisionReader → Option VisionContext → Bytes → Processed
unpadded r ctx d =
    if r.direct_copy then record { output = d; reader = r; context = ctx } else process r ctx d

module _ {T : Type 0} (write : T → Bytes → Bool × T) (shutdown_write : T → T) where
  -- `copyStream`, as the other loops see it.
  unfoldable pub copy : List RecvResult → T → Bool × T
  copy [] t = (true, shutdown_write t)
  copy (eof ∷ rs) t = (true, shutdown_write t)
  copy (error e ∷ rs) t = (false, shutdown_write t)
  copy (received d ∷ rs) t =
      let w = write t d in let more = copy rs w.1 in if w.0 then more else (false, w.1)

  -- The Vision branch of `relayClientToTarget`.
  unfoldable pub relay_vision : VisionReader → Option VisionContext → List RecvResult → T → Bool × T
  unfolding copy process
  relay_vision r ctx [] t = (true, shutdown_write t)
  relay_vision r ctx (eof ∷ rs) t = (true, shutdown_write t)
  relay_vision r ctx (error e ∷ rs) t = (false, shutdown_write t)
  relay_vision r ctx (received d ∷ rs) t =
      let p = unpadded r ctx d in
      let w = send write t p.output in
      let more = relay_vision p.reader p.context rs w.1 in
      let copied = copy rs w.1 in
      if w.0 then (if p.reader.direct_copy then copied else more) else (false, w.1)

  -- `forwardHandshakeRemaining`, and then the relay.
  unfoldable pub forward_vision :
      VisionReader → Option VisionContext → Bytes → List RecvResult → T → Bool × T
  unfolding relay_vision process
  forward_vision r ctx [] rs t = relay_vision r ctx rs t
  forward_vision r ctx (b ∷ bs) rs t =
      let p = process r ctx (b ∷ bs) in
      let w = send write t p.output in
      let more = relay_vision p.reader p.context rs w.1 in if w.0 then more else (false, w.1)
