-- ===== src/Client/Connection.antt =====
-- src/client/socks5_connection.cpp: `clientTask` with `runTcpSession` and `runUdpAssociate`, as a
-- function of what the awaited operations give. `inet_pton` is an argument.
pub mod Dialogue
use cppvless.Common.{
  ℕ, Bool, true, false, List, [], ◌∷◌, ◌++◌, Bytes, is_empty, if◌then◌else◌, Option, none, some,
  Result, ok, err, codes,
}
use cppvless.Common.Int.{is_positive}
use cppvless.Coro.ByteReader.{ByteReader}
use cppvless.Coro.BufferedStream.{RecvResult, received, eof, error, UringBufferedStream, opened}
use cppvless.Coro.BufferedStream.Laws.{uring}
use cppvless.Coro.AsyncStream.{SendResult, Written, write_full, CopyEnd, copy_stream}
use cppvless.Socks5.Protocol.{
  Command, connect, bind, udp_associate, other, Request, Socks5Error, encode_reply,
}
use cppvless.Socks5.Parser.{read_greeting, read_request}

-- The reads of the application's socket, and the sends to it and to the tunnel. The handshake with
-- the server gives what it read too much, or fails; binding a socket for UDP gives its port.
pub record Environment : Type 0 where
  pub app_reads : List RecvResult
  pub app_sends : List SendResult
  pub handshake : Option Bytes
  pub tunnel_sends : List SendResult
  pub udp_port : Option ℕ

-- The bytes of a `writeFull` to the application, and whether its result was positive.
abbrev pub Message : Type 0
Message = Bytes × Bool

abbrev pub attempted : List SendResult → Bytes → Message
attempted sends bytes = (bytes, is_positive (write_full sends bytes).result)

-- What the coroutine did: the messages for the application, written or not, what the tunnel took,
-- and whether the other coroutine and the relay of datagrams were started.
pub record Done : Type 0 where
  pub messages : List Message
  pub relayed : Bytes
  pub remote_started : Bool
  pub udp_started : Bool

abbrev pub ends_with : List Message → Done
ends_with ms = record { messages = ms; relayed = []; remote_started = false; udp_started = false }

abbrev pub refusal : Bytes
refusal = 0x05 ∷ 0xFF ∷ []

-- `encodeGreetingResponse`
abbrev pub greeting_response : Bytes
greeting_response = 0x05 ∷ 0x00 ∷ []

abbrev pub success : ℕ
success = 0x00

abbrev pub general_failure : ℕ
general_failure = 0x01

abbrev pub connection_refused : ℕ
connection_refused = 0x05

abbrev pub command_not_supported : ℕ
command_not_supported = 0x07

module _ (inet_pton4 inet_pton6 : Bytes → Option Bytes) where
  -- `sendSocksReply`: the message, and the sends that are left if it was written. An exception of
  -- the encoding ends the coroutine.
  unfoldable pub socks_reply : ℕ → Bytes → ℕ → Result Socks5Error Bytes
  socks_reply = encode_reply inet_pton4 inet_pton6

  -- A reply behind which the session ends.
  unfoldable pub last_reply : List SendResult → List Message → Result Socks5Error Bytes → Done
  last_reply sends ms (ok reply) = ends_with (ms ++ attempted sends reply ∷ [])
  last_reply sends ms (err e) = ends_with ms

  -- Both directions are relayed; this coroutine has the one to the tunnel, and reads the socket.
  unfoldable pub relays : Environment → List RecvResult → List Message → Done
  relays env reads ms = record {
    messages = ms;
    relayed = (copy_stream reads env.tunnel_sends).taken;
    remote_started = true;
    udp_started = false;
  }

  -- What the handshake read too much goes to the application first.
  unfoldable pub forwards :
      Environment → List RecvResult → List SendResult → Bytes → List Message → Done
  unfolding relays
  forwards env reads sends remaining ms =
      if is_empty remaining
      then relays env reads ms
      else if is_positive (write_full sends remaining).result
      then relays env reads (ms ++ attempted sends remaining ∷ [])
      else ends_with (ms ++ attempted sends remaining ∷ [])

  unfoldable pub tunnelled :
      Environment
      → List RecvResult
      → List SendResult
      → Bytes
      → List Message
      → Result Socks5Error Bytes
      → Done
  unfolding forwards
  tunnelled env reads sends remaining ms (err e) = ends_with ms
  tunnelled env reads sends remaining ms (ok reply) =
      let w = write_full sends reply in
      if is_positive w.result
      then forwards env reads w.sends remaining (ms ++ attempted sends reply ∷ [])
      else ends_with (ms ++ attempted sends reply ∷ [])

  unfoldable pub connected :
      Environment → List RecvResult → List SendResult → List Message → Option Bytes → Done
  unfolding tunnelled last_reply
  connected env reads sends ms none =
      last_reply sends ms (socks_reply connection_refused (codes "0.0.0.0") 0)
  connected env reads sends ms (some remaining) =
      tunnelled env reads sends remaining ms (socks_reply success (codes "0.0.0.0") 0)

  -- The relay of datagrams lives as long as the control connection.
  unfoldable pub associated : List SendResult → List Message → Result Socks5Error Bytes → Done
  associated sends ms (err e) = ends_with ms
  associated sends ms (ok reply) =
      if is_positive (write_full sends reply).result
      then record {
        messages = ms ++ attempted sends reply ∷ [];
        relayed = [];
        remote_started = false;
        udp_started = true;
      }
      else ends_with (ms ++ attempted sends reply ∷ [])

  unfoldable pub bound : List SendResult → List Message → Option ℕ → Done
  unfolding associated last_reply
  bound sends ms none = last_reply sends ms (socks_reply general_failure (codes "0.0.0.0") 0)
  bound sends ms (some port) = associated sends ms (socks_reply success (codes "127.0.0.1") port)

  -- `switch (req.cmd)`. The reads of the socket are those behind the buffered stream.
  unfoldable pub dispatched :
      Environment → List SendResult → List Message → UringBufferedStream → Command → Done
  unfolding connected bound
  dispatched env sends ms stream connect = connected env stream.incoming sends ms env.handshake
  dispatched env sends ms stream udp_associate = bound sends ms env.udp_port
  dispatched env sends ms stream bind =
      last_reply sends ms (socks_reply command_not_supported (codes "0.0.0.0") 0)
  dispatched env sends ms stream (other b) =
      last_reply sends ms (socks_reply command_not_supported (codes "0.0.0.0") 0)

  unfoldable pub requested :
      Environment
      → List SendResult
      → List Message
      → Result Socks5Error (Request × UringBufferedStream)
      → Done
  unfolding dispatched
  requested env sends ms (err e) = ends_with ms
  requested env sends ms (ok (req, stream)) = dispatched env sends ms stream req.cmd

  unfoldable pub greeted : Environment → Result Socks5Error (Bool × UringBufferedStream) → Done
  unfolding requested
  greeted env (err e) = ends_with []
  greeted env (ok (false, stream)) = ends_with (attempted env.app_sends refusal ∷ [])
  greeted env (ok (true, stream)) =
      let w = write_full env.app_sends greeting_response in
      let ms = attempted env.app_sends greeting_response ∷ [] in
      if is_positive w.result
      then requested env w.sends ms (read_request uring stream)
      else ends_with ms

  -- Exceptions end the coroutine.
  unfoldable pub client_task : Environment → Done
  unfolding greeted
  client_task env = greeted env (read_greeting uring (opened env.app_reads))
