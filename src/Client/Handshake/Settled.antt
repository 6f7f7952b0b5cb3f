-- ===== src/Client/Handshake/Settled.antt =====
-- What the handshake of the client leaves (src/client/vless_client.cpp).
use cppvless.Common.{
  ℕ, suc, ◌≤◌, ◌<◌, ◌≡◌, refl, sym, ap, ◌∙◌, ◌⊎◌, inl, inr, true, false, List, [], ◌∷◌, ◌++◌,
  append-nil, Bytes, All, length, Bool-cases, Option, none, some, ok, if◌then◌else◌, Result, err,
  arith, subst, not, ◌||◌,
}
use cppvless.Coro.ByteReader.{flat}
use cppvless.Coro.BufferedStream.{RecvResult, opened}
use cppvless.Coro.BufferedStream.Laws.{arriving, uring}
use cppvless.Coro.AsyncStream.{write_full}
use cppvless.Coro.AsyncStream.Copied.{IsWorking, write_full_lem}
use cppvless.Common.Int.{is_positive}
use cppvless.Vless.Protocol.{tcp, udp, Command, Request}
use cppvless.Vless.Validator.{Validator, contains}
use cppvless.Vless.Decoder.{decode, encode_response}
use cppvless.Vless.Encoder.{EncodeError, decode_response}
use cppvless.Vless.Encoder.RoundTrip.{decoded}
use cppvless.Vless.Encoder.Response.{decode_response-encode_response}
use cppvless.Socks5.Protocol.{IsWritable}
use cppvless.Socks5.Protocol
use cppvless.Client.{to_vless_address, to_vless_request, request_header}
use cppvless.Client.Tunnel.{encodes, decode-request_header}
use cppvless.Client.Handshake.{
  Remote, Handshake, accepted, answered, asks, no_tls, on_socket, vless_connect_and_handshake,
}

-- The descriptor that the handshake makes, if it comes that far.
abbrev pub listed : Option ℕ → List ℕ
listed none = []
listed (some fd) = fd ∷ []

abbrev pub made : Remote → List ℕ
made remote = if remote.resolves then listed remote.socket else []

-- Everything made is returned or closed, and nothing both.
abbrev Settles : List ℕ → Result EncodeError Handshake → Type 0
Settles fds (err e) = Unit {0}
Settles fds (ok h) = listed h.remote_fd ++ h.closed ≡ fds

asks-Settles :
    (remote : Remote) (fd : ℕ) (r : Result EncodeError Bytes) → Settles (fd ∷ []) (asks remote fd r)
unfolding asks answered accepted
asks-Settles remote fd (err e) = tt
asks-Settles remote fd (ok header) =
    let w = write_full remote.sends header in
    let answer = decode_response uring (opened remote.reads) in
    elim (Bool-cases (is_positive w.result)) [
      | inl e ↦ elim (Bool-cases answer.0) [ inl g ↦ rw (e, g) refl | inr g ↦ rw (e, g) refl ]
      | inr e ↦ rw e refl
    ]

on_socket-Settles :
    (remote : Remote) (uuid : Bytes) (req : Request) (s : Option ℕ)
    → Settles (listed s) (on_socket remote uuid req s)
unfolding on_socket
on_socket-Settles remote uuid req none = refl
on_socket-Settles remote uuid req (some fd) =
    elim (Bool-cases (not remote.connects || no_tls remote)) [
      | inl e ↦ rw e refl
      | inr e ↦ rw e (asks-Settles remote fd (request_header uuid req))
    ]

-- Whatever the system and the remote do, a handshake that throws nothing returns the descriptor
-- that it made, or has closed it, and never both.
pub vless_connect_and_handshake-listed :
    (remote : Remote) (uuid : Bytes) (req : Request) (h : Handshake)
    → vless_connect_and_handshake remote uuid req ≡ ok h
    → listed h.remote_fd ++ h.closed ≡ made remote
unfolding vless_connect_and_handshake
vless_connect_and_handshake-listed remote uuid req h e = subst (Settles (made remote)) e settled
  where
    settled : Settles (made remote) (vless_connect_and_handshake remote uuid req)
    settled = elim (Bool-cases remote.resolves) [
      | inl r ↦ rw r (on_socket-Settles remote uuid req remote.socket)
      | inr r ↦ rw r refl
    ]

-- A descriptor with a stream from which `later` will come.
record Opened (fd : ℕ) (header later : Bytes) (h : Handshake) : Type 0 where
  fd_given : h.remote_fd ≡ some fd
  header_taken : h.taken ≡ header
  later_left : h.remaining ++ arriving h.left ≡ later

-- After the server's response to the header, nothing of what follows is lost.
answered-Opened :
    (fd : ℕ) (header later : Bytes) (reads : List RecvResult)
    → arriving reads ≡ encode_response 0 ++ later
    → Opened fd header later (answered fd header (decode_response uring (opened reads)))
unfolding answered accepted
answered-Opened fd header later reads e =
    let (good, left) =
      decode_response-encode_response uring 0 later (opened reads) (omega arith, e) in
    rw good (record { fd_given = refl; header_taken = refl; later_left = left.1 })

asks-Opened :
    (remote : Remote) (fd : ℕ) (header later : Bytes)
    → All IsWorking remote.sends
    → suc (length header) ≤ length remote.sends
    → arriving remote.reads ≡ encode_response 0 ++ later
    → (h : Handshake) × (asks remote fd (ok (0 ∷ header)) ≡ ok h) × Opened fd (0 ∷ header) later h
unfolding asks
asks-Opened remote fd header later works enough e =
    let (taken, count) = write_full_lem remote.sends (0 ∷ header) works enough in
    rw (ap is_positive count)
      (rw taken (_, refl, answered-Opened fd (0 ∷ header) later remote.reads e))

-- The name is found, the socket connects, and TLS, if it is wanted, is set up.
pub record IsConnected (remote : Remote) (fd : ℕ) : Type 0 where
  pub found : remote.resolves ≡ true
  pub made_fd : remote.socket ≡ some fd
  pub connected : remote.connects ≡ true
  pub secured : no_tls remote ≡ false

connected-asks :
    (remote : Remote) (fd : ℕ) (uuid : Bytes) (req : Request)
    → IsConnected remote fd
    → vless_connect_and_handshake remote uuid req ≡ asks remote fd (request_header uuid req)
unfolding vless_connect_and_handshake on_socket
connected-asks remote fd uuid req i = simp (i.found, i.made_fd, i.connected, i.secured)

-- A connected client with a SOCKS5 request of a writable address and a port below 65536, by a known
-- user and over TCP or UDP: if every send takes a byte at least, there are as many sends as the
-- header has bytes, and the remote gives the response of version 0 before its EOF or error, then
-- the handshake succeeds, the server decodes from what the remote took exactly the user, the
-- command, and the address and port that the application asked for, and what the client kept with
-- what it will still read is all that followed the response.
pub vless_connect_and_handshake-decode :
    (validator : Validator) (uuid : Bytes) (req : Protocol.Request) (cmd : Command)
    (remote : Remote) (fd : ℕ) (later : Bytes)
    → contains validator uuid ≡ true
    → length uuid ≡ 16
    → (cmd ≡ tcp) ⊎ (cmd ≡ udp)
    → req.port < 65536
    → IsWritable req.address
    → IsConnected remote fd
    → All IsWorking remote.sends
    → ((out : Bytes)
        → request_header uuid (to_vless_request req cmd) ≡ ok out
        → length out ≤ length remote.sends)
    → arriving remote.reads ≡ encode_response 0 ++ later
    → (h : Handshake) × (vless_connect_and_handshake remote uuid (to_vless_request req cmd) ≡ ok h)
      × (h.remote_fd ≡ some fd)
      × (decode flat validator h.taken
          ≡ ok (decoded flat uuid [] cmd req.port (to_vless_address req.address), []))
      × (h.remaining ++ arriving h.left ≡ later)
vless_connect_and_handshake-decode validator uuid req cmd remote fd later known size c p w i works
      enough e =
    let (out, sent, decodes) = decode-request_header validator uuid req cmd [] known size c p w in
    let (header, same) = encodes uuid req cmd w in
    let whole : out ≡ 0 ∷ header = cc in
    let (h, asked, o) = asks-Opened remote fd header later works (enough (0 ∷ header) same) e in
    (
      h,
      connected-asks remote fd uuid (to_vless_request req cmd) i ∙ ap (asks remote fd) same ∙ asked,
      o.fd_given,
      ap (decode flat validator) (o.header_taken ∙ sym whole ∙ sym (append-nil out)) ∙ decodes,
      o.later_left,
    )
