-- ===== src/Coro/BufferedStream.antt =====
-- src/coro/buffered_stream.cpp and the private part of include/coro/buffered_stream.h.
-- `net::Stream::read` is the environment: the list `incoming` is what the successive reads of the
-- underlying stream will return. Behind its end every read returns EOF.
pub mod Laws
use cppvless.Common.{
  ℕ, ◌+◌, ◌-◌, Bool, true, false, List, [], ◌∷◌, ◌++◌, Bytes, length, take, drop, ltb, ◌==◌,
  if◌then◌else◌,
}

-- `RecvResult` of include/coro/uring_awaitable.h: a positive result comes with that many bytes,
-- 0 is EOF, and a negative result is an error number.
pub data RecvResult : Type 0 where
  received : Bytes → RecvResult
  eof : RecvResult
  error : ℕ → RecvResult

pub record UringBufferedStream : Type 0 where
  pub buffer : Bytes
  pub consumed : ℕ
  pub incoming : List RecvResult

abbrev pub available : UringBufferedStream → ℕ
available s = length s.buffer - s.consumed

unfoldable pub consume : ℕ → UringBufferedStream → Bytes × UringBufferedStream
consume n s =
    let result = take n (drop s.consumed s.buffer) in
    let consumed' = s.consumed + n in
    if consumed' == length s.buffer
    then (result, record s { buffer = []; consumed = 0 })
    else (result, record s { consumed = consumed' })

-- The branch of `read` for EOF and errors.
abbrev short_read : UringBufferedStream → Bytes × UringBufferedStream
short_read s = if ltb 0 (available s) then consume (available s) s else ([], s)

-- The loop of `read`, by recursion on the results still to come.
unfoldable pub read_loop : ℕ → List RecvResult → Bytes → ℕ → Bytes × UringBufferedStream
unfolding consume
read_loop need [] buffer consumed =
    let s : UringBufferedStream = record { buffer = buffer; consumed = consumed; incoming = [] } in
    if ltb (available s) need then short_read s else consume need s
read_loop need (received d ∷ rest) buffer consumed =
    let s : UringBufferedStream = record {
      buffer = buffer;
      consumed = consumed;
      incoming = received d ∷ rest;
    } in
    let more = read_loop need rest (buffer ++ d) consumed in
    if ltb (available s) need then more else consume need s
read_loop need (r ∷ rest) buffer consumed =
    let s : UringBufferedStream = record {
      buffer = buffer;
      consumed = consumed;
      incoming = r ∷ rest;
    } in
    if ltb (available s) need then short_read (record s { incoming = rest }) else consume need s

unfoldable pub read : ℕ → UringBufferedStream → Bytes × UringBufferedStream
unfolding read_loop
read need s = read_loop need s.incoming s.buffer s.consumed

-- An empty vector reads as 0.
abbrev first_byte : Bytes × UringBufferedStream → ℕ × UringBufferedStream
first_byte ([], s') = (0, s')
first_byte (b ∷ bs, s') = (b, s')

unfoldable pub read_byte : UringBufferedStream → ℕ × UringBufferedStream
unfolding read
read_byte s = first_byte (read 1 s)

unfoldable pub drain_remaining : UringBufferedStream → Bytes × UringBufferedStream
drain_remaining s = (drop s.consumed s.buffer, record s { consumed = length s.buffer })

-- A stream over a fresh connection.
abbrev pub opened : List RecvResult → UringBufferedStream
opened incoming = record { buffer = []; consumed = 0; incoming = incoming }
