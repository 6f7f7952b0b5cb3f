-- ===== src/Client/Handshake.antt =====
-- `vlessConnectAndHandshake` of src/client/vless_client.cpp, as a function of what the system and
-- the TLS library give.
pub mod Settled
use cppvless.Common.{
  ℕ, Bool, true, false, not, ◌&&◌, ◌||◌, List, [], ◌∷◌, Bytes, if◌then◌else◌, Option, none, some,
  Result, ok, err,
}
use cppvless.Common.Int.{is_positive}
use cppvless.Coro.BufferedStream.{RecvResult, UringBufferedStream, opened, drain_remaining}
use cppvless.Coro.BufferedStream.Laws.{uring}
use cppvless.Coro.AsyncStream.{SendResult, Written, write_full}
use cppvless.Vless.Protocol.{Request}
use cppvless.Vless.Encoder.{EncodeError, decode_response}
use cppvless.Client.{request_header}

-- The answers, in the order of the questions: the look-up of the name, the descriptor of
-- the socket if there is one, whether it connects, whether TLS is wanted, has a context, and its
-- handshake succeeds, what the stream takes, and what it gives.
pub record Remote : Type 0 where
  pub resolves : Bool
  pub socket : Option ℕ
  pub connects : Bool
  pub tls_enabled : Bool
  pub has_context : Bool
  pub tls_handshake : Bool
  pub sends : List SendResult
  pub reads : List RecvResult

-- `VlessClientHandshakeResult`, with the descriptors that were closed, what the remote took, and
-- the stream that is left.
pub record Handshake : Type 0 where
  pub remote_fd : Option ℕ
  pub remaining : Bytes
  pub closed : List ℕ
  pub taken : Bytes
  pub left : List RecvResult

abbrev pub failed_with : List ℕ → Bytes → List RecvResult → Handshake
failed_with closed taken left = record {
  remote_fd = none;
  remaining = [];
  closed = closed;
  taken = taken;
  left = left;
}

-- What was read too much is collected.
unfoldable pub accepted : ℕ → Bytes → UringBufferedStream → Handshake
unfolding drain_remaining
accepted fd taken s = record {
  remote_fd = some fd;
  remaining = (drain_remaining s).0;
  closed = [];
  taken = taken;
  left = (drain_remaining s).1.incoming;
}

unfoldable pub answered : ℕ → Bytes → Bool × UringBufferedStream → Handshake
unfolding accepted
answered fd taken (good, s) =
    if good then accepted fd taken s else failed_with (fd ∷ []) taken s.incoming

-- The request is sent, and its response read. The encoding may throw, and leaves the descriptor
-- open then.
unfoldable pub asks : Remote → ℕ → Result EncodeError Bytes → Result EncodeError Handshake
unfolding answered
asks remote fd (err e) = err e
asks remote fd (ok header) =
    let w = write_full remote.sends header in
    if is_positive w.result
    then ok (answered fd w.taken (decode_response uring (opened remote.reads)))
    else ok (failed_with (fd ∷ []) w.taken remote.reads)

abbrev pub no_tls : Remote → Bool
no_tls remote = remote.tls_enabled && not (remote.has_context && remote.tls_handshake)

unfoldable pub on_socket : Remote → Bytes → Request → Option ℕ → Result EncodeError Handshake
unfolding asks request_header
on_socket remote uuid req none = ok (failed_with [] [] remote.reads)
on_socket remote uuid req (some fd) =
    if not remote.connects || no_tls remote
    then ok (failed_with (fd ∷ []) [] remote.reads)
    else asks remote fd (request_header uuid req)

unfoldable pub vless_connect_and_handshake : Remote → Bytes → Request → Result EncodeError Handshake
unfolding on_socket
vless_connect_and_handshake remote uuid req =
    if remote.resolves
    then on_socket remote uuid req remote.socket
    else ok (failed_with [] [] remote.reads)
