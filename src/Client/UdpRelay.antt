-- ===== src/Client/UdpRelay.antt =====
-- src/client/socks5_udp_relay.cpp: the datagrams of an application, with a tunnel for each target.
-- What the reads and writes of the system return is part of the events. `to_string` is the text of
-- an address (`Address::toString`). `closed_` is false as long as the loops of the relay run.
pub mod Outbound
pub mod Inbound
pub mod Sending
use cppvless.Common.{
  ℕ, zero, suc, ◌+◌, ◌/◌, ◌%◌, Bool, true, false, not, ◌&&◌, ◌||◌, List, [], ◌∷◌, ◌++◌, Bytes,
  is_empty, length, equal, if◌then◌else◌, Option, none, some, Result, ok, err,
}
use cppvless.Coro.BufferedStream.{RecvResult, received, eof, error}
use cppvless.Socks5.Protocol.{Address, Socks5Error, type_of}
use cppvless.Socks5.Datagram.{Datagram, parse_udp_datagram, encode_udp_datagram}
use cppvless.Config.Json.Number.{decimal}
use cppvless.Server.UdpRelay.{next_packet}

-- The tunnel to a target. `remote_open` says whether `remoteFd` is a descriptor, `written` are the
-- frames that its stream took. A handshake that succeeds gives a stream.
pub record Session : Type 0 where
  pub remote_open : Bool
  pub dest : Address
  pub port : ℕ
  pub app_src : Bytes
  pub alive : Bool
  pub written : Bytes

pub record PendingDatagram : Type 0 where
  pub bytes : Bytes
  pub src : Bytes

pub record Socks5UdpRelay : Type 0 where
  pub closed : Bool
  pub udp_open : Bool
  pub event_open : Bool
  pub sessions : List (Bytes × Session)
  pub send_queue : List PendingDatagram
  pub signals : ℕ

-- `sessions_.find` and `sessions_[key] = session`
unfoldable pub find_session : Bytes → List (Bytes × Session) → Option Session
find_session key [] = none
find_session key ((k, s) ∷ m) = if equal k key then some s else find_session key m

unfoldable pub put_session : Bytes → Session → List (Bytes × Session) → List (Bytes × Session)
put_session key s [] = (key, s) ∷ []
put_session key s ((k, t) ∷ m) =
    let rest = put_session key s m in if equal k key then (k, s) ∷ m else (k, t) ∷ rest

abbrev pub new_relay : Socks5UdpRelay
new_relay = record {
  closed = false;
  udp_open = true;
  event_open = false;
  sessions = [];
  send_queue = [];
  signals = 0;
}

-- `start`, with whether `eventfd` succeeds; the loops run from here on.
unfoldable pub start : Bool → Socks5UdpRelay → Socks5UdpRelay
start has_event r = if has_event then record r { event_open = true } else record r { closed = true }

unfoldable pub stop : Socks5UdpRelay → Socks5UdpRelay
stop r = if r.closed then r else record r {
  closed = true;
  udp_open = false;
  event_open = false;
  sessions = [];
  send_queue = [];
}

-- A frame: two bytes of length, cut to 16 bits, and the payload.
unfoldable pub framed : Bytes → Bytes
framed payload = length payload % 65536 / 256 ∷ length payload % 256 ∷ payload

-- The write into the tunnel, with where the answers go. A failure closes the tunnel.
unfoldable pub transmit : Session → Bytes → Bytes → Bool → Session
unfolding framed
transmit s src payload accepts =
    if accepts
    then record s { app_src = src; written = s.written ++ framed payload }
    else record s { app_src = src; alive = false; remote_open = false }

abbrev pub new_session : Address → ℕ → Session
new_session dest port = record {
  remote_open = true;
  dest = dest;
  port = port;
  app_src = [];
  alive = true;
  written = [];
}

-- What `recvfrom` returns; a datagram comes with whether a handshake for it would succeed, and
-- whether the tunnel takes it.
pub data RecvFrom : Type 0 where
  fails idle : RecvFrom
  arrives : Bytes → Bytes → Bool → Bool → RecvFrom

abbrev pub if_alive : Option Session → Option Session
if_alive none = none
if_alive (some s) = if s.alive then some s else none

abbrev pub store : Socks5UdpRelay → Bytes → Session → Socks5UdpRelay
store r key s = record r { sessions = put_session key s r.sessions }

abbrev pub or_new : Address → ℕ → Bool → Option Session → Option Session
or_new addr port connects (some s) = some s
or_new addr port connects none = if connects then some (new_session addr port) else none

module _ (to_string : Address → Bytes) where
  unfoldable pub make_key : Address → ℕ → Bytes
  make_key addr port = decimal (type_of addr) ++ (b'|' ∷ (to_string addr ++ (b':' ∷ decimal port)))

  -- `getOrCreateSession`: the live one, or a new one if the handshake succeeds.
  unfoldable pub get_or_create_session : Socks5UdpRelay → Address → ℕ → Bool → Option Session
  get_or_create_session r addr port connects =
      or_new addr port connects (if_alive (find_session (make_key addr port) r.sessions))

  abbrev pub sent_through :
      Socks5UdpRelay → Datagram → Bytes → Bool → Option Session → Socks5UdpRelay
  sent_through r d src accepts none = r
  sent_through r d src accepts (some s) =
      store r (make_key d.addr d.port) (transmit s src d.payload accepts)

  -- A datagram that cannot be parsed, or is empty, is dropped.
  abbrev pub routed : Socks5UdpRelay → Bytes → Bool → Bool → Option Datagram → Socks5UdpRelay
  routed r src connects accepts none = r
  routed r src connects accepts (some d) =
      if is_empty d.payload
      then r
      else sent_through r d src accepts (get_or_create_session r d.addr d.port connects)

  -- `recvLoop`, up to its end.
  unfoldable pub recv_events : Socks5UdpRelay → List RecvFrom → Socks5UdpRelay
  recv_events r [] = r
  recv_events r (fails ∷ es) = r
  recv_events r (idle ∷ es) = recv_events r es
  recv_events r (arrives bytes src connects accepts ∷ es) =
      recv_events (routed r src connects accepts (parse_udp_datagram bytes)) es

  unfoldable pub recv_loop : Socks5UdpRelay → List RecvFrom → Socks5UdpRelay
  unfolding recv_events stop
  recv_loop r es = stop (recv_events r es)

-- `enqueueDatagram`: for later, with a signal for the other loop. The address was parsed, so it can
-- be written.
abbrev pub queued : Socks5UdpRelay → Bytes → Result Socks5Error Bytes → Socks5UdpRelay
queued r src (err e) = r
queued r src (ok bytes) = record r {
  send_queue = r.send_queue ++ record { bytes = bytes; src = src } ∷ [];
  signals = if r.event_open then r.signals + 1 else r.signals;
}

unfoldable pub enqueue_datagram : Socks5UdpRelay → Address → ℕ → Bytes → Bytes → Socks5UdpRelay
enqueue_datagram r dest port payload src =
    if r.closed || is_empty payload then r else queued r src (encode_udp_datagram dest port payload)

-- The payloads of the whole frames of one read. What is behind them is dropped. The loop of the
-- server's relay does the same test. A frame has two bytes, so the length is fuel enough.
unfoldable pub payloads : ℕ → Bytes → List Bytes
payloads zero bytes = []
payloads (suc fuel) bytes = elim (next_packet bytes) [
  | none ↦ []
  | some packet ↦ packet.0 ∷ payloads fuel packet.1
]

unfoldable pub enqueue_all : Socks5UdpRelay → Session → List Bytes → Socks5UdpRelay
enqueue_all r s [] = r
enqueue_all r s (p ∷ ps) = enqueue_all (enqueue_datagram r s.dest s.port p s.app_src) s ps

abbrev pub ended : Session → Session
ended s = record s { alive = false; remote_open = false }

-- A round of `sessionOutTask`, on what the read returned, or its end.
unfoldable pub answered : Socks5UdpRelay → Bytes → Session → RecvResult → Socks5UdpRelay
answered r key s (received d) = enqueue_all r s (payloads (length d) d)
answered r key s eof = store r key (ended s)
answered r key s (error e) = store r key (ended s)

abbrev pub runs : Socks5UdpRelay → Session → Bool
runs r s = not r.closed && (s.alive && s.remote_open)

abbrev pub reading : Socks5UdpRelay → Bytes → RecvResult → Option Session → Socks5UdpRelay
reading r key result none = r
reading r key result (some s) = if runs r s then answered r key s result else store r key (ended s)

unfoldable pub session_read : Socks5UdpRelay → Bytes → RecvResult → Socks5UdpRelay
session_read r key result = reading r key result (find_session key r.sessions)

-- The inner loop of `sendLoop`, on the results of `sendto`, behind whose end every one fails: what
-- was sent, and what still waits. The datagram that fails is lost.
unfoldable pub flush :
    List PendingDatagram → List Bool → List PendingDatagram × List PendingDatagram
flush [] results = ([], [])
flush (q ∷ qs) [] = ([], qs)
flush (q ∷ qs) (false ∷ results) = ([], qs)
flush (q ∷ qs) (true ∷ results) = let (sent, left) = flush qs results in (q ∷ sent, left)

-- One read of the event descriptor: an error ends the loop.
pub data Wake : Type 0 where
  wakes : List Bool → Wake
  broken : Wake

unfoldable pub send_loop : Socks5UdpRelay → List Wake → List PendingDatagram × Socks5UdpRelay
unfolding flush
send_loop r [] = ([], r)
send_loop r (broken ∷ ws) = ([], r)
send_loop r (wakes results ∷ ws) =
    let (sent, left) = flush r.send_queue results in
    let (later, r') = send_loop (record r { send_queue = left; signals = 0 }) ws in
    (sent ++ later, r')
