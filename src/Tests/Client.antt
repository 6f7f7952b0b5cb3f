-- ===== src/Tests/Client.antt =====
-- The client (src/client).
use cppvless.Common.{
  ◌≡◌, refl, arith, List, [], ◌∷◌, ◌++◌, Bytes, Bool, true, false, All, length, equal, Option,
  Result, err, ℕ, zero, suc, ◌≤◌, replicate, subst, inl, none, some, ok, Option,
}
use cppvless.Coro.BufferedStream.{received, eof, RecvResult, UringBufferedStream, opened}
use cppvless.Server.Handshake.{process_handshake}
use cppvless.Server.Handshake.Opened.{process_handshake-request_header}
use cppvless.Coro.AsyncStream.{sent}
use cppvless.Coro.AsyncStream.Copied.{IsWorking}
use cppvless.Coro.ByteReader.{flat}
use cppvless.Coro.BufferedStream.Laws.{arriving, uring}
use cppvless.Socks5.Protocol.{Address, Request, connect, ipv4, write_addr_port}
use cppvless.Socks5.Datagram.{parse_udp_datagram, encode_udp_datagram}
use cppvless.Config.Json.Number.{decimal, decimal_loop}
use cppvless.Server.UdpRelay.{relay}
use cppvless.Server.UdpRelay.Segments.{received_all}
use cppvless.Vless.Protocol.{tcp}
use cppvless.Vless.Validator.{contains}
use cppvless.Vless.Decoder.{decode, encode_response}
use cppvless.Vless.Encoder.{EncodeError, encode_request, write_address}
use cppvless.Vless.Encoder.RoundTrip.{decoded}
use cppvless.Client.{to_vless_address, to_vless_request, request_header}
use cppvless.Client.Handshake.{
  Remote, Handshake, failed_with, vless_connect_and_handshake, on_socket,
}
use cppvless.Client.Handshake.Settled.{
  listed, made, vless_connect_and_handshake-listed, vless_connect_and_handshake-decode,
}
use cppvless.Client.UdpRelay.{
  new_relay, start, stop, Session, PendingDatagram, Socks5UdpRelay, find_session, make_key,
  recv_events, transmit, put_session, get_or_create_session, framed, new_session,
}
use cppvless.Client.UdpRelay.Outbound.{outgoing, written_to, recv_events-relay}
use cppvless.Client.UdpRelay.Inbound.{reads, session_reads, Answers, session_reads-Answers}
use cppvless.Client.Connection.{Environment, client_task}
use cppvless.Client.Connection.Dialogue.{IsOrderly, client_task-IsOrderly}
use cppvless.Client.Lifecycle.{
  Socks5Connection, started, tunnel_stands, start_remote_task, end_client_task, connects,
}

-- No address is printed, and a target keeps what is written.
abbrev no_text : Address → Bytes
no_text a = []

abbrev write : List Bytes → Bytes → Bool × List Bytes
write t d = (true, t ++ (d ∷ []))

abbrev resolver : Address
resolver = ipv4 (9 ∷ 9 ∷ 9 ∷ 9 ∷ [])

abbrev idle_relay : Socks5UdpRelay
idle_relay = record new_relay { event_open = true }

-- A relay without an event descriptor keeps its socket when it is stopped.
unstarted_socket : (stop (start false new_relay)).udp_open ≡ true
unfolding stop start
unstarted_socket = refl

abbrev datagram : Bytes → Bytes
datagram payload = 0 ∷ 0 ∷ 0 ∷ 1 ∷ 9 ∷ 9 ∷ 9 ∷ 9 ∷ 0 ∷ 53 ∷ payload

abbrev from_app : List (Bytes × Bytes)
from_app =
    (datagram (7 ∷ 8 ∷ []), 1 ∷ []) ∷ (datagram [], 1 ∷ []) ∷ (datagram (6 ∷ []), 2 ∷ []) ∷ []

abbrev asked : List Bytes
asked = (7 ∷ 8 ∷ []) ∷ [] ∷ (6 ∷ []) ∷ []

encodes : (payload : Bytes) → encode_udp_datagram resolver 53 payload ≡ ok (datagram payload)
unfolding encode_udp_datagram write_addr_port
encodes payload = refl

recv_events-relay_example :
    relay write [] (received_all ((0 ∷ 2 ∷ 7 ∷ []) ∷ (8 ∷ 0 ∷ 1 ∷ 6 ∷ []) ∷ [])) []
    ≡ (true, (7 ∷ 8 ∷ []) ∷ (6 ∷ []) ∷ [])
unfolding parse_udp_datagram
recv_events-relay_example =
    recv_events-relay write no_text resolver 53 from_app asked idle_relay
      ((0 ∷ 2 ∷ 7 ∷ []) ∷ (8 ∷ 0 ∷ 1 ∷ 6 ∷ []) ∷ []) [] (λ t d. refl) refl (omega arith)
      (omega arith, (omega arith, (omega arith, tt))) (encodes _, (encodes _, (encodes _, tt)))
      (unfold written_to find_session in refl)
      (unfold written_to find_session recv_events outgoing make_key decimal decimal_loop
          get_or_create_session transmit put_session framed equal in
        refl)

abbrev resolving : Session
resolving = record (new_session resolver 53) { app_src = 1 ∷ [] }

abbrev resolving_relay : Socks5UdpRelay
resolving_relay = record idle_relay { sessions = (5 ∷ [], resolving) ∷ [] }

abbrev answers : List (List Bytes)
answers = ((1 ∷ 2 ∷ []) ∷ [] ∷ []) ∷ ((3 ∷ []) ∷ []) ∷ []

session_reads-Answers_example :
    (added : List PendingDatagram) × ((session_reads resolving_relay
        (5 ∷ [])
        (reads answers)).send_queue
      ≡ [] ++ added)
    × Answers resolving added ((1 ∷ 2 ∷ []) ∷ (3 ∷ []) ∷ [])
session_reads-Answers_example =
    session_reads-Answers answers resolving_relay (5 ∷ []) resolving
      (unfold find_session equal in refl) refl refl (omega arith)
      ((omega arith, (omega arith, tt)), ((omega arith, tt), tt))

abbrev waiting : Socks5UdpRelay
waiting = record idle_relay {
  send_queue = record { bytes = 1 ∷ []; src = [] } ∷ record { bytes = 2 ∷ []; src = [] } ∷ [];
}

-- The reply has the address in zeros.
abbrev zeros : Bytes → Option Bytes
zeros text = some (0 ∷ 0 ∷ 0 ∷ 0 ∷ [])

abbrev browsing : Environment
browsing = record {
  app_reads =
      received (5 ∷ 1 ∷ 0 ∷ [])
      ∷ received (5 ∷ 1 ∷ 0 ∷ 1 ∷ 9 ∷ 9 ∷ 9 ∷ 9 ∷ 0 ∷ 53 ∷ [])
      ∷ received (1 ∷ [])
      ∷ eof
      ∷ [];
  app_sends = sent 2 ∷ sent 10 ∷ sent 1 ∷ [];
  handshake = some (4 ∷ []);
  tunnel_sends = sent 1 ∷ [];
  udp_port = none;
}

client_task-IsOrderly_example : IsOrderly zeros zeros browsing (client_task zeros zeros browsing)
client_task-IsOrderly_example = client_task-IsOrderly zeros zeros browsing

-- The application's side ends first.
abbrev half_closed : Socks5Connection
half_closed = end_client_task (start_remote_task (tunnel_stands started))

-- A server that takes eight bytes at a time, and answers with the first bytes of the target.
abbrev server : Remote
server = record {
  resolves = true;
  socket = some 7;
  connects = true;
  tls_enabled = true;
  has_context = true;
  tls_handshake = true;
  sends = replicate 40 (sent 8);
  reads = received (0 ∷ []) ∷ received (0 ∷ 104 ∷ []) ∷ received (105 ∷ []) ∷ eof ∷ [];
}

replicate-IsWorking : (n : ℕ) → All IsWorking (replicate n (sent 8))
replicate-IsWorking zero = tt
replicate-IsWorking (suc n) = (tt, replicate-IsWorking n)

server-IsWorking : All IsWorking server.sends
server-IsWorking = replicate-IsWorking 40

abbrev user : Bytes
user = replicate 16 7

abbrev web : Request
web = record { cmd = connect; address = resolver; port = 443 }

known : contains (user ∷ []) user ≡ true
unfolding contains equal
known = refl

header_fits :
    (out : Bytes)
    → request_header user (to_vless_request web tcp) ≡ ok out
    → length out ≤ length server.sends
unfolding request_header encode_request write_address
header_fits out e = subst fits e (omega arith)
  where
    fits : Result EncodeError Bytes → Type 0
    fits (ok out) = length out ≤ 40
    fits (err e) = ⊥

vless_connect_and_handshake-decode_example :
    (h : Handshake) × (vless_connect_and_handshake server user (to_vless_request web tcp) ≡ ok h)
    × (h.remote_fd ≡ some 7)
    × (decode flat (user ∷ []) h.taken
        ≡ ok (decoded flat user [] tcp 443 (to_vless_address resolver), []))
    × (h.remaining ++ arriving h.left ≡ 104 ∷ 105 ∷ [])
vless_connect_and_handshake-decode_example =
    vless_connect_and_handshake-decode (user ∷ []) user web tcp server 7 (104 ∷ 105 ∷ []) known refl
      (inl refl) (omega arith) refl
      (record { found = refl; made_fd = refl; connected = refl; secured = refl }) server-IsWorking
      header_fits (unfold encode_response in refl)

abbrev unreachable : Remote
unreachable = record server { connects = false }

vless_connect_and_handshake-listed_example : listed none ++ (7 ∷ []) ≡ made unreachable
vless_connect_and_handshake-listed_example =
    vless_connect_and_handshake-listed unreachable user (to_vless_request web tcp)
      (failed_with (7 ∷ []) [] server.reads) (unfold vless_connect_and_handshake on_socket in refl)

-- The header of the same request, and a byte for the target, in two reads of the server.
abbrev web_header : Bytes
web_header = 0 ∷ (user ++ (0 ∷ 1 ∷ 1 ∷ 187 ∷ 1 ∷ 9 ∷ 9 ∷ 9 ∷ 9 ∷ []))

abbrev arriving_header : List RecvResult
arriving_header =
    received (0 ∷ user) ∷ received (0 ∷ 1 ∷ 1 ∷ 187 ∷ 1 ∷ 9 ∷ 9 ∷ 9 ∷ 9 ∷ 104 ∷ []) ∷ eof ∷ []

process_handshake-request_header_example :
    (remaining : Bytes) × (s : UringBufferedStream) × (process_handshake
        (user ∷ [])
        (opened arriving_header)
      ≡ ok (decoded uring user [] tcp 443 (to_vless_address resolver), remaining, s))
    × (remaining ++ arriving s.incoming ≡ 104 ∷ [])
process_handshake-request_header_example =
    process_handshake-request_header (user ∷ []) user web tcp arriving_header web_header (104 ∷ [])
      known refl (inl refl) (omega arith) refl
      (unfold request_header encode_request write_address in refl) refl
