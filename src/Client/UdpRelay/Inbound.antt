-- ===== src/Client/UdpRelay/Inbound.antt =====
-- From the server back to the application: `sessionOutTask` of src/client/socks5_udp_relay.cpp.
use cppvless.Common.{
  subst, ℕ, zero, suc, ◌+◌, ◌<◌, ◌≤◌, ◌≡◌, refl, sym, ap, ◌∙◌, Bool, true, false, not, ◌&&◌, List,
  [], ◌∷◌, ◌++◌, inl, inr, append-nil, append_assoc, arith, Bytes, All, is_empty, length,
  length-append, Bool-cases, if◌then◌else◌, Option, none, some, ok,
}
use cppvless.Coro.BufferedStream.{RecvResult, received}
use cppvless.Socks5.Protocol.{Address, IsWritable}
use cppvless.Socks5.Datagram.{with_payload, parse_udp_datagram, encode_udp_datagram}
use cppvless.Socks5.Parser.RoundTrip.{write_addr_port-host_bytes}
use cppvless.Socks5.Datagram.RoundTrip.{parse_udp_datagram-encode_udp_datagram}
use cppvless.Server.UdpRelay.{next_packet, frame}
use cppvless.Server.UdpRelay.Segments.{frames, next_packet-nil, next_packet-frame}
use cppvless.Client.UdpRelay.Outbound.{kept}
use cppvless.Client.UdpRelay.{
  Session, PendingDatagram, Socks5UdpRelay, find_session, enqueue_datagram, payloads, enqueue_all,
  answered, reading, runs, ended, store, session_read,
}

abbrev discard : Unit {0} → Bytes → Bool × Unit {0}
discard t d = (true, t)

-- The stream of a tunnel: each packet behind its length.
abbrev pub stream : List Bytes → Bytes
stream ds = frames discard ds

abbrev IsShort : Bytes → Type 0
IsShort d = length d < 65536

payloads-stream_part :
    (ds : List Bytes) (part : Bytes) (fuel : ℕ)
    → All IsShort ds
    → next_packet part ≡ none
    → length (stream ds ++ part) ≤ fuel
    → payloads fuel (stream ds ++ part) ≡ ds
unfolding payloads
payloads-stream_part [] part zero h n le = refl
payloads-stream_part [] part (suc fuel) h n le = rw (n, payloads)
payloads-stream_part (d ∷ ds) part zero h n le = absurd (omega arith)
payloads-stream_part (d ∷ ds) part (suc fuel) h n le =
    let first : next_packet (stream (d ∷ ds) ++ part) ≡ some (d, stream ds ++ part) =
      ap next_packet (append_assoc (frame discard d) (stream ds) part)
      ∙ next_packet-frame discard d (stream ds ++ part) h.0 in
    rw (first, payloads)
      (ap (λ xs. d ∷ xs) (payloads-stream_part ds part fuel h.1 n (shorter fuel le)))
  where
    shorter :
        (fuel : ℕ) → length (stream (d ∷ ds) ++ part) ≤ suc fuel → length (stream ds ++ part) ≤ fuel
    shorter fuel le = omega (
      arith,
      length-append {0} (stream (d ∷ ds)) part,
      length-append {0} (stream ds) part,
      length-append {0} d (stream ds),
    )

payloads-stream :
    (ds : List Bytes) (fuel : ℕ)
    → All IsShort ds
    → length (stream ds) ≤ fuel
    → payloads fuel (stream ds) ≡ ds
payloads-stream ds fuel h le =
    ap (payloads fuel) (sym (append-nil (stream ds)))
    ∙ payloads-stream_part ds [] fuel h next_packet-nil
        (omega (arith, length-append {0} (stream ds) []))

-- Datagrams for the application, from the target of the session, with these payloads.
abbrev pub Answers : Session → List PendingDatagram → List Bytes → Type 0
Answers s [] [] = Unit {0}
Answers s (q ∷ qs) (p ∷ ps) =
    (parse_udp_datagram q.bytes ≡ some (record { addr = s.dest; port = s.port; payload = p }))
    × (q.src ≡ s.app_src)
    × Answers s qs ps
Answers s _ _ = ⊥

-- What an enqueueing of the payloads leaves: the answers behind the queue, and all else.
record Enqueued (r r' : Socks5UdpRelay) (s : Session) (ps : List Bytes) : Type 0 where
  added : List PendingDatagram
  queue : r'.send_queue ≡ r.send_queue ++ added
  answers : Answers s added ps
  sessions : r'.sessions ≡ r.sessions
  closed : r'.closed ≡ r.closed

encoded :
    (a : Address) (port : ℕ) (payload : Bytes)
    → IsWritable a
    → (out : Bytes) × (encode_udp_datagram a port payload ≡ ok out)
unfolding encode_udp_datagram
encoded a port payload w = (_, ap (with_payload payload) (write_addr_port-host_bytes a port w))

abbrev with_answer : Socks5UdpRelay → Session → Bytes → Socks5UdpRelay
with_answer r s out = record r {
  send_queue = r.send_queue ++ record { bytes = out; src = s.app_src } ∷ [];
  signals = if r.event_open then r.signals + 1 else r.signals;
}

enqueue_datagram-with_answer :
    (r : Socks5UdpRelay) (s : Session) (d out : Bytes)
    → r.closed ≡ false
    → is_empty d ≡ false
    → encode_udp_datagram s.dest s.port d ≡ ok out
    → enqueue_datagram r s.dest s.port d s.app_src ≡ with_answer r s out
unfolding enqueue_datagram
enqueue_datagram-with_answer r s d out c e o = simp (c, e, o)

enqueue_datagram-empty :
    (r : Socks5UdpRelay) (s : Session) (d : Bytes)
    → r.closed ≡ false
    → is_empty d ≡ true
    → enqueue_datagram r s.dest s.port d s.app_src ≡ r
unfolding enqueue_datagram
enqueue_datagram-empty r s d c e = simp (c, e)

enqueue_all-Enqueued :
    (ds : List Bytes) (r : Socks5UdpRelay) (s : Session)
    → r.closed ≡ false
    → IsWritable s.dest
    → s.port < 65536
    → Enqueued r (enqueue_all r s ds) s (kept ds)
unfolding enqueue_all
enqueue_all-Enqueued [] r s c w p = record {
  added = [];
  queue = sym (append-nil r.send_queue);
  answers = tt;
  sessions = refl;
  closed = refl;
}
enqueue_all-Enqueued (d ∷ ds) r s c w p = elim (Bool-cases (is_empty d)) [
  | inl e ↦ rw (e, enqueue_datagram-empty r s d c e) (enqueue_all-Enqueued ds r s c w p)
  | inr e ↦
      let (out, o) = encoded s.dest s.port d w in
      let i = enqueue_all-Enqueued ds (with_answer r s out) s c w p in
      rw (e, enqueue_datagram-with_answer r s d out c e o)
        (record {
          added = record { bytes = out; src = s.app_src } ∷ i.added;
          queue = i.queue ∙ append_assoc r.send_queue _ i.added;
          answers =
              (parse_udp_datagram-encode_udp_datagram s.dest s.port d out w p o, refl, i.answers);
          sessions = i.sessions;
          closed = i.closed;
        })
]

-- Reads that hold whole frames only.
abbrev pub reads : List (List Bytes) → List RecvResult
reads [] = []
reads (g ∷ gs) = received (stream g) ∷ reads gs

unfoldable pub session_reads : Socks5UdpRelay → Bytes → List RecvResult → Socks5UdpRelay
session_reads r key [] = r
session_reads r key (x ∷ xs) = session_reads (session_read r key x) key xs

abbrev pub flattened : List (List Bytes) → List Bytes
flattened [] = []
flattened (g ∷ gs) = g ++ flattened gs

kept-append : (xs ys : List Bytes) → kept (xs ++ ys) ≡ kept xs ++ kept ys
kept-append [] ys = refl
kept-append (x ∷ xs) ys = elim (Bool-cases (is_empty x)) [
  | inl e ↦ rw e (kept-append xs ys)
  | inr e ↦ rw e (ap (λ r. x ∷ r) (kept-append xs ys))
]

Answers-append :
    (s : Session) (qs qs' : List PendingDatagram) (ps ps' : List Bytes)
    → Answers s qs ps
    → Answers s qs' ps'
    → Answers s (qs ++ qs') (ps ++ ps')
Answers-append s [] qs' [] ps' h g = g
Answers-append s (q ∷ qs) qs' (p ∷ ps) ps' h g = (h.0, h.1, Answers-append s qs qs' ps ps' h.2 g)
Answers-append s [] qs' (p ∷ ps) ps' h g = absurd h
Answers-append s (q ∷ qs) qs' [] ps' h g = absurd h

open_of_runs : (r : Socks5UdpRelay) (s : Session) → runs r s ≡ true → r.closed ≡ false
open_of_runs r s u = ground arith

session_read-Enqueued :
    (r : Socks5UdpRelay) (key : Bytes) (s : Session) (ds : List Bytes)
    → find_session key r.sessions ≡ some s
    → runs r s ≡ true
    → IsWritable s.dest
    → s.port < 65536
    → All IsShort ds
    → Enqueued r (session_read r key (received (stream ds))) s (kept ds)
unfolding session_read answered
session_read-Enqueued r key s ds f u w p h =
    let c : r.closed ≡ false = open_of_runs r s u in
    let went : session_read r key (received (stream ds)) ≡ enqueue_all r s ds =
      ap (reading r key (received (stream ds))) f
      ∙ ap (λ b. if b then answered r key s (received (stream ds)) else store r key (ended s)) u
      ∙ ap (enqueue_all r s) (payloads-stream ds (length (stream ds)) h (omega arith)) in
    subst (λ r'. Enqueued r r' s (kept ds)) (sym went) (enqueue_all-Enqueued ds r s c w p)

-- Answers behind a queue that has answers already.
Enqueued-trans :
    (r r' r'' : Socks5UdpRelay) (s : Session) (ps ps' : List Bytes)
    → Enqueued r r' s ps
    → Enqueued r' r'' s ps'
    → Enqueued r r'' s (ps ++ ps')
Enqueued-trans r r' r'' s ps ps' i j = record {
  added = i.added ++ j.added;
  queue = j.queue ∙ ap (λ q. q ++ j.added) i.queue ∙ append_assoc r.send_queue i.added j.added;
  answers = Answers-append s i.added j.added ps ps' i.answers j.answers;
  sessions = j.sessions ∙ i.sessions;
  closed = j.closed ∙ i.closed;
}

-- While the session lives, every packet of the tunnel that is not empty is queued as a datagram
-- that the application parses to the target and the payload, in order, for the address from which
-- the application sent last, if every read holds whole frames.
pub session_reads-Answers :
    (gs : List (List Bytes)) (r : Socks5UdpRelay) (key : Bytes) (s : Session)
    → find_session key r.sessions ≡ some s
    → runs r s ≡ true
    → IsWritable s.dest
    → s.port < 65536
    → All (All (λ d. length d < 65536)) gs
    → (added : List PendingDatagram) × ((session_reads r key (reads gs)).send_queue
        ≡ r.send_queue ++ added)
      × Answers s added (kept (flattened gs))
unfolding session_reads
session_reads-Answers gs r key s f u w p h =
    let e = all_reads gs r f u h in (e.added, e.queue, e.answers)
  where
    all_reads :
        (gs : List (List Bytes)) (r : Socks5UdpRelay)
        → find_session key r.sessions ≡ some s
        → runs r s ≡ true
        → All (All IsShort) gs
        → Enqueued r (session_reads r key (reads gs)) s (kept (flattened gs))
    all_reads [] r f u h = record {
      added = [];
      queue = sym (append-nil r.send_queue);
      answers = tt;
      sessions = refl;
      closed = refl;
    }
    all_reads (g ∷ gs) r f u h =
        let i = session_read-Enqueued r key s g f u w p h.0 in
        let r' = session_read r key (received (stream g)) in
        let j =
          all_reads gs r' (ap (find_session key) i.sessions ∙ f)
            (ap (λ c. not c && (s.alive && s.remote_open)) i.closed ∙ u) h.1 in
        subst (Enqueued r _ s) (sym (kept-append g (flattened gs)))
          (Enqueued-trans r r' _ s (kept g) (kept (flattened gs)) i j)

-- A part of a frame at the end of a read changes nothing: it is lost, and what follows it is read as
-- if it were the head of a frame.
pub session_reads-part :
    (ds : List Bytes) (part : Bytes) (r : Socks5UdpRelay) (key : Bytes) (rest : List RecvResult)
    → All (λ d. length d < 65536) ds
    → next_packet part ≡ none
    → session_reads r key (received (stream ds ++ part) ∷ rest)
      ≡ session_reads r key (received (stream ds) ∷ rest)
unfolding session_reads session_read answered
session_reads-part ds part r key rest h n =
    ap (λ r'. session_reads r' key rest) (same (find_session key r.sessions))
  where
    same_payloads :
        payloads (length (stream ds ++ part)) (stream ds ++ part)
        ≡ payloads (length (stream ds)) (stream ds)
    same_payloads =
        payloads-stream_part ds part (length (stream ds ++ part)) h n (omega arith)
        ∙ sym (payloads-stream ds (length (stream ds)) h (omega arith))

    same :
        (o : Option Session)
        → reading r key (received (stream ds ++ part)) o ≡ reading r key (received (stream ds)) o
    same none = refl
    same (some s) =
        ap (λ ps. if runs r s then enqueue_all r s ps else store r key (ended s)) same_payloads
