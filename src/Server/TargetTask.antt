-- ===== src/Server/TargetTask.antt =====
-- `targetTask` of src/server/vless_connection_target_task.cpp: what comes from the target goes to
-- the client, in the mode of the session. What the reads return is a list, behind whose end every
-- read returns EOF. `write` says whether a write had a positive result, and `shutdown_write` is
-- `shutdownWrite` of the same stream. The changes that the other direction makes to the shared
-- context are left out, and `closed_` is false as long as the loop runs.
pub mod Vision
use cppvless.Common.{ℕ, Bool, true, false, List, [], ◌∷◌, Bytes, if◌then◌else◌, Option}
use cppvless.Coro.BufferedStream.{RecvResult, received, eof, error}
use cppvless.Vision.Context.{VisionContext}
use cppvless.Vision.Writer.{VisionWriter, Processed, process}
use cppvless.Vless.Encryption.{Openssl, EncryptionSession}
use cppvless.Server.UdpRelay.{send, respond}
use cppvless.Server.TcpRelay.{copy}
use cppvless.Server.EncryptedRelay.{respond_encrypted}

module _ {G : Type 0} (uniform : ℕ → G → ℕ × G) {T : Type 0} (write : T → Bytes → Bool × T)
    (shutdown_write : T → T) where
  -- `if (!visionWriter_->directCopy()) data = visionWriter_->process(data);`
  abbrev pub padded : VisionWriter G → Option VisionContext → Bytes → Processed uniform
  padded w ctx d =
      if w.direct_copy
      then record { output = d; writer = w; context = ctx }
      else process uniform w ctx d

  -- The Vision branch.
  unfoldable pub respond_vision :
      VisionWriter G → Option VisionContext → List RecvResult → T → Bool × T
  unfolding copy process
  respond_vision w ctx [] t = (true, shutdown_write t)
  respond_vision w ctx (eof ∷ rs) t = (true, shutdown_write t)
  respond_vision w ctx (error e ∷ rs) t = (false, shutdown_write t)
  respond_vision w ctx (received d ∷ rs) t =
      let p = padded w ctx d in
      let sent = send write t p.output in
      let more = respond_vision p.writer p.context rs sent.1 in
      let copied = copy write shutdown_write rs sent.1 in
      if sent.0 then (if p.writer.direct_copy then copied else more) else (false, sent.1)

-- How a session was set up. A UDP session has none of the others.
pub data Mode (G : Type 0) : Type 0 where
  datagrams plain : Mode G
  encrypted : EncryptionSession → Mode G
  vision : VisionWriter G → Option VisionContext → Mode G

-- `targetTask` up to its end: `normalEnd`, and the client.
unfoldable pub target_task :
    {G T : Type 0}
    → Openssl
    → (ℕ → G → ℕ × G)
    → (T → Bytes → Bool × T)
    → (T → T)
    → Mode G
    → List RecvResult
    → T
    → Bool × T
unfolding respond respond_encrypted respond_vision copy
target_task ssl uniform write shutdown_write datagrams rs t = (true, respond write rs t)
target_task ssl uniform write shutdown_write (encrypted s) rs t =
    respond_encrypted ssl write shutdown_write s rs t
target_task ssl uniform write shutdown_write (vision w ctx) rs t =
    respond_vision uniform write shutdown_write w ctx rs t
target_task ssl uniform write shutdown_write plain rs t = copy write shutdown_write rs t
