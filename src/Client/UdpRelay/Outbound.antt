-- ===== src/Client/UdpRelay/Outbound.antt =====
-- From an application to the target of the server: `recvLoop` of src/client/socks5_udp_relay.cpp
-- with the relay of the server (src/server/vless_connection_relay_udp.cpp).
use cppvless.Common.{
  joined, ℕ, ◌%◌, ◌<◌, ◌≡◌, refl, sym, ap, ◌∙◌, Bool, true, List, [], ◌∷◌, ◌++◌, inl, inr,
  append-nil, append_assoc, arith, Bytes, All, is_empty, length, equal, equal_refl, Bool-cases,
  if◌then◌else◌, Option, none, some, ok,
}
use cppvless.Socks5.Protocol.{Address, IsWritable}
use cppvless.Socks5.Datagram.RoundTrip.{parse_udp_datagram-encode_udp_datagram}
use cppvless.Socks5.Datagram.{Datagram, encode_udp_datagram}
use cppvless.Server.UdpRelay.{relay, frame}
use cppvless.Server.UdpRelay.Segments.{received_all, frames, deliver, relay-frames}
use cppvless.Client.UdpRelay.{
  Session, Socks5UdpRelay, find_session, put_session, framed, transmit, new_session, RecvFrom,
  arrives, if_alive, or_new, make_key, get_or_create_session, sent_through, routed, recv_events,
}

find_session-put_session :
    (key : Bytes) (s : Session) (m : List (Bytes × Session))
    → find_session key (put_session key s m) ≡ some s
unfolding find_session put_session
find_session-put_session key s [] = rw (equal_refl key)
find_session-put_session key s ((k, t) ∷ m) = elim (Bool-cases (equal k key)) [
  | inl e ↦ rw (e, e)
  | inr e ↦ rw (e, e) (find_session-put_session key s m)
]

-- What the live tunnel to a target has taken.
abbrev pub taken : Option Session → Bytes
taken none = []
taken (some s) = if s.alive then s.written else []

unfoldable pub written_to : Bytes → Socks5UdpRelay → Bytes
written_to key r = taken (find_session key r.sessions)

-- The frames of the payloads that are not empty.
abbrev pub all_framed : List Bytes → Bytes
all_framed [] = []
all_framed (p ∷ ps) = let rest = all_framed ps in if is_empty p then rest else framed p ++ rest

-- The application sends datagrams for a target whose tunnel works.
unfoldable pub outgoing : List (Bytes × Bytes) → List RecvFrom
outgoing [] = []
outgoing ((datagram, src) ∷ ds) = arrives datagram src true true ∷ outgoing ds

-- Each datagram is the encoding of its payload.
abbrev pub Encode : Address → ℕ → List (Bytes × Bytes) → List Bytes → Type 0
Encode dest port [] [] = Unit {0}
Encode dest port ((d, src) ∷ ds) (p ∷ ps) =
    (encode_udp_datagram dest port p ≡ ok d) × Encode dest port ds ps
Encode dest port _ _ = ⊥

module _ (to_string : Address → Bytes) (dest : Address) (port : ℕ) where
  key : Bytes
  key = make_key to_string dest port

  abbrev to_target : Bytes → Datagram
  to_target payload = record { addr = dest; port = port; payload = payload }

  -- A tunnel that takes the frame has taken what it had, and the frame.
  stored :
      (r : Socks5UdpRelay) (payload src : Bytes) (s : Session)
      → s.alive ≡ true
      → written_to key (sent_through to_string r (to_target payload) src true (some s))
        ≡ s.written ++ framed payload
  unfolding written_to key transmit
  stored r payload src s a =
      rw (find_session-put_session (make_key to_string dest port) _ r.sessions) (rw a)

  sent :
      (r : Socks5UdpRelay) (payload src : Bytes) (o : Option Session)
      → written_to key (
          sent_through to_string r
            (to_target payload)
            src
            true
            (or_new dest port true (if_alive o)))
        ≡ taken o ++ framed payload
  sent r payload src none = stored r payload src (new_session dest port) refl
  sent r payload src (some s) = elim (Bool-cases s.alive) [
    | inl a ↦ simp a (stored r payload src s a)
    | inr a ↦ simp a (stored r payload src (new_session dest port) refl)
  ]

  created :
      (r : Socks5UdpRelay) (payload src : Bytes)
      → written_to key (
          sent_through to_string r
            (to_target payload)
            src
            true
            (get_or_create_session to_string r dest port true))
        ≡ written_to key r ++ framed payload
  unfolding get_or_create_session written_to key
  created r payload src = sent r payload src _

  -- The live tunnel to the target takes the frames of all payloads that are not empty.
  recv_events-all_framed :
      (ds : List (Bytes × Bytes)) (ps : List Bytes) (r : Socks5UdpRelay)
      → IsWritable dest
      → port < 65536
      → Encode dest port ds ps
      → written_to key (recv_events to_string r (outgoing ds)) ≡ written_to key r ++ all_framed ps
  unfolding recv_events outgoing
  recv_events-all_framed [] [] r w p e = sym (append-nil _)
  recv_events-all_framed [] (q ∷ qs) r w p e = absurd e
  recv_events-all_framed (d ∷ ds) [] r w p e = absurd e
  recv_events-all_framed ((d, src) ∷ ds) (q ∷ qs) r w p e =
      ap
        (λ o.
          written_to key (recv_events to_string (routed to_string r src true true o) (outgoing ds)))
        (parse_udp_datagram-encode_udp_datagram dest port q d w p e.0)
      ∙ elim (Bool-cases (is_empty q)) [
        | inl z ↦ simp z (recv_events-all_framed ds qs r w p e.1)
        | inr z ↦ simp z (
            recv_events-all_framed ds qs _ w p e.1
            ∙ ap (λ x. x ++ all_framed qs) (created r q src)
            ∙ append_assoc _ (framed q) (all_framed qs))
      ]

abbrev pub kept : List Bytes → List Bytes
kept [] = []
kept (p ∷ ps) = let rest = kept ps in if is_empty p then rest else p ∷ rest

module _ {T : Type 0} (write : T → Bytes → Bool × T) where
  framed-frame : (p : Bytes) → framed p ≡ frame write p
  unfolding framed
  framed-frame p = ap (λ h. h ∷ length p % 256 ∷ p) (omega arith)

  all_framed-frames : (ps : List Bytes) → all_framed ps ≡ frames write (kept ps)
  all_framed-frames [] = refl
  all_framed-frames (p ∷ ps) = elim (Bool-cases (is_empty p)) [
    | inl e ↦ rw e (all_framed-frames ps)
    | inr e ↦ rw e (rw (framed-frame p) (ap (λ r. frame write p ++ r) (all_framed-frames ps)))
  ]

  -- The server's relay skips empty packets as well.
  deliver-kept : (ps : List Bytes) (t : T) → deliver write (kept ps) t ≡ deliver write ps t
  deliver-kept [] t = refl
  deliver-kept ([] ∷ ps) t = deliver-kept ps t
  deliver-kept ((b ∷ bs) ∷ ps) t = deliver-kept ps (write t (b ∷ bs)).1

  kept-All :
      (ps : List Bytes) → All (λ d. length d < 65536) ps → All (λ d. length d < 65536) (kept ps)
  kept-All [] h = tt
  kept-All (p ∷ ps) h = elim (Bool-cases (is_empty p)) [
    | inl e ↦ rw e (kept-All ps h.1)
    | inr e ↦ rw e (h.0, kept-All ps h.1)
  ]

  -- The datagrams that an application sends for one target, when the handshake and all writes
  -- succeed, arrive there in order, less the empty ones, however the tunnel's stream is cut into
  -- reads: client and server together.
  pub recv_events-relay :
      (to_string : Address → Bytes) (dest : Address) (port : ℕ) (ds : List (Bytes × Bytes))
      (ps : List Bytes) (r : Socks5UdpRelay) (cs : List Bytes) (t : T)
      → ((t : T) (d : Bytes) → (write t d).0 ≡ true)
      → IsWritable dest
      → port < 65536
      → All (λ d. length d < 65536) ps
      → Encode dest port ds ps
      → written_to (make_key to_string dest port) r ≡ []
      → joined cs
        ≡ written_to (make_key to_string dest port) (recv_events to_string r (outgoing ds))
      → relay write [] (received_all cs) t ≡ (true, deliver write ps t)
  recv_events-relay to_string dest port ds ps r cs t works w p h e fresh same =
      let stream : joined cs ≡ frames write (kept ps) =
        same
        ∙ unfold key in
          recv_events-all_framed to_string dest port ds ps r w p e
          ∙ ap (λ x. x ++ all_framed ps) fresh
          ∙ all_framed-frames ps in
      relay-frames write cs [] (kept ps) t works (kept-All ps h) stream
      ∙ ap (λ x. (true, x)) (deliver-kept ps t)
