-- ===== src/Server/UdpRelay.antt =====
-- src/server/vless_connection_relay_udp.cpp: packets with a length of two bytes in front on the
-- client's side, and datagrams on the target's side. What the reads return is a list, behind whose
-- end every read returns EOF. `write` says whether a write had a positive result. `closed_` is
-- false as long as one of the two loops runs, so it is not tested here.
pub mod Segments
use cppvless.Common.{
  ℕ, zero, suc, ◌+◌, ◌*◌, ◌/◌, ◌%◌, bit_or, Bool, true, false, not, List, [], ◌∷◌, ◌++◌, Bytes,
  length, take, drop, ltb, if◌then◌else◌, Option, none, some,
}
use cppvless.Coro.BufferedStream.{RecvResult, received, eof, error}

-- The next packet, and what is behind it, if it has arrived in full.
unfoldable pub next_packet : Bytes → Option (Bytes × Bytes)
next_packet [] = none
next_packet (hi ∷ []) = none
next_packet (hi ∷ lo ∷ rest) =
    let packet_len = bit_or (hi * 256) lo in
    if ltb (length rest) packet_len then none else some (take packet_len rest, drop packet_len rest)

module _ {T : Type 0} (write : T → Bytes → Bool × T) where
  -- An empty packet is not written.
  abbrev pub send : T → Bytes → Bool × T
  send t [] = (true, t)
  send t (b ∷ bs) = write t (b ∷ bs)

  -- `while (pending.size() - offset >= 2)`: whether all writes went well, and what is pending.
  -- A packet has two bytes at least, so the length of the bytes is fuel enough.
  unfoldable pub drain : ℕ → Bytes → T → Bool × Bytes × T
  unfolding next_packet
  drain zero pending t = (true, pending, t)
  drain (suc fuel) pending t = elim (next_packet pending) [
    | none ↦ (true, pending, t)
    | some p ↦
        let sent = send t p.0 in
        let rest = drain fuel p.1 sent.1 in if sent.0 then rest else (false, pending, sent.1)
  ]

  -- `relayUdpClientToTarget`: `normalEnd`, and the target.
  unfoldable pub relay : Bytes → List RecvResult → T → Bool × T
  unfolding drain
  relay pending [] t = let (ok, left, t') = drain (length pending) pending t in (ok, t')
  relay pending (received d ∷ rs) t =
      let (ok, left, t') = drain (length pending) pending t in
      let more = relay (left ++ d) rs t' in if ok then more else (false, t')
  relay pending (eof ∷ rs) t = let (ok, left, t') = drain (length pending) pending t in (ok, t')
  relay pending (error e ∷ rs) t =
      let (ok, left, t') = drain (length pending) pending t in (false, t')

  abbrev pub frame : Bytes → Bytes
  frame d = length d / 256 % 256 ∷ length d % 256 ∷ d

  -- `relayUdpTargetToClient`: a datagram that is too large for the length is dropped.
  unfoldable pub respond : List RecvResult → T → T
  respond [] t = t
  respond (received d ∷ rs) t =
      let skipped = respond rs t in
      let written = write t (frame d) in
      let more = respond rs written.1 in
      if ltb 65535 (length d) then skipped else if written.0 then more else written.1
  respond (eof ∷ rs) t = t
  respond (error e ∷ rs) t = t
