-- ===== src/Server/Handshake.antt =====
-- `processHandshake` of src/server/vless_connection_handshake.cpp: the request, and what was read
-- too much, which goes to the target later.
pub mod Opened
use cppvless.Common.{Bytes, Result, ok, ◌>>=◌}
use cppvless.Coro.BufferedStream.{UringBufferedStream, drain_remaining}
use cppvless.Coro.BufferedStream.Laws.{uring}
use cppvless.Vless.Protocol.{Request}
use cppvless.Vless.Validator.{Validator}
use cppvless.Vless.Decoder.{DecodeError, decode}

-- `handshakeRemaining_` is empty at the start, so an empty rest is no special case.
unfoldable pub process_handshake :
    Validator → UringBufferedStream → Result DecodeError (Request × Bytes × UringBufferedStream)
unfolding decode drain_remaining
process_handshake validator s = do
  out ← decode uring validator s
  ok (out.0, (drain_remaining out.1).0, (drain_remaining out.1).1)
