-- ===== src/Coro/BufferedStream/Laws.antt =====
-- `UringBufferedStream` delivers the bytes that the peer sent, however the reads of the underlying
-- stream cut them into pieces.
use cppvless.Common.{
  ℕ, ◌+◌, ◌-◌, ◌≤◌, ◌<◌, ◌≡◌, sym, ap, ◌∙◌, true, List, [], ◌∷◌, ◌++◌, inl, inr, append-nil,
  append_assoc, arith, Bytes, length, take, drop, length-append, length-drop, take-append_le,
  drop-append_le, take_all, drop_all, drop-drop, ltb, ltb-false, ltb→lt, lt→ltb, subst, ◌==◌,
  Bool-cases,
}
use cppvless.Coro.ByteReader.{ByteReader}
use cppvless.Coro.BufferedStream.{
  RecvResult, received, UringBufferedStream, available, consume, short_read, read_loop, read,
  drain_remaining,
}

-- The bytes that arrive before the first EOF or error.
abbrev pub arriving : List RecvResult → Bytes
arriving [] = []
arriving (received d ∷ rest) = d ++ arriving rest
arriving (_ ∷ rest) = []

abbrev pub pending : UringBufferedStream → Bytes
pending s = drop s.consumed s.buffer ++ arriving s.incoming

abbrev pub IsValid : UringBufferedStream → Type 0
IsValid s = s.consumed ≤ length s.buffer

abbrev pub Holds : UringBufferedStream → Bytes → Type 0
Holds s xs = IsValid s × (pending s ≡ xs)

-- `out` is the first `n` bytes of `xs`, with a stream that holds the others.
abbrev Delivers : ℕ → Bytes × UringBufferedStream → Bytes → Type 0
Delivers n out xs = (out.0 ≡ take n xs) × Holds out.1 (drop n xs)

consume_lem :
    (n : ℕ) (s : UringBufferedStream)
    → IsValid s
    → n ≤ available s
    → Delivers n (consume n s) (pending s)
unfolding consume
consume_lem n s v h = elim (Bool-cases (s.consumed + n == length s.buffer)) [
  | inl e ↦ rw e (sym front, (omega arith, sym (back ∙ used_up (ground arith))))
  | inr e ↦ rw e (sym front, (omega arith, sym back))
]
  where
    fits : n ≤ length (drop s.consumed s.buffer)
    fits = omega (arith, length-drop s.consumed s.buffer)

    front : take n (pending s) ≡ take n (drop s.consumed s.buffer)
    front = take-append_le n (drop s.consumed s.buffer) (arriving s.incoming) fits

    back : drop n (pending s) ≡ drop (s.consumed + n) s.buffer ++ arriving s.incoming
    back =
        drop-append_le n (drop s.consumed s.buffer) (arriving s.incoming) fits
        ∙ ap (λ xs. xs ++ arriving s.incoming) (drop-drop n s.consumed s.buffer)

    used_up :
        length s.buffer ≤ s.consumed + n
        → drop (s.consumed + n) s.buffer ++ arriving s.incoming ≡ arriving s.incoming
    used_up le = ap (λ xs. xs ++ arriving s.incoming) (drop_all (s.consumed + n) s.buffer le)

consume_bytes :
    (n : ℕ) (s : UringBufferedStream) → (consume n s).0 ≡ take n (drop s.consumed s.buffer)
unfolding consume
consume_bytes n s = elim (Bool-cases (s.consumed + n == length s.buffer)) [
  | inl e ↦ rw e
  | inr e ↦ rw e
]

-- When the peer's bytes run out, `read` gives all that was buffered.
short_read_lem : (s : UringBufferedStream) → IsValid s → (short_read s).0 ≡ drop s.consumed s.buffer
short_read_lem s v = elim (Bool-cases (ltb 0 (available s))) [
  | inl e ↦ rw e (
      consume_bytes (available s) s
      ∙ take_all (available s) (drop s.consumed s.buffer)
          (omega (arith, length-drop s.consumed s.buffer)))
  | inr e ↦ rw e (sym (drop_all s.consumed s.buffer (omega (arith, ltb-false _ _ e))))
]

arrived :
    (buffer d : Bytes) (rest : List RecvResult) (consumed : ℕ)
    → consumed ≤ length buffer
    → drop consumed (buffer ++ d) ++ arriving rest ≡ drop consumed buffer ++ (d ++ arriving rest)
arrived buffer d rest consumed v =
    ap (λ xs. xs ++ arriving rest) (drop-append_le consumed buffer d v)
    ∙ append_assoc (drop consumed buffer) d (arriving rest)

-- The bytes at hand are too few, and no others will come.
starved :
    (need : ℕ) (buffer : Bytes) (consumed : ℕ)
    → need ≤ length (drop consumed buffer ++ [])
    → ltb (length buffer - consumed) need ≡ true
    → ⊥
starved need buffer consumed h e =
    omega
      (arith, ltb→lt _ _ e, length-append (drop consumed buffer) [], length-drop consumed buffer)

waits :
    (more : Bytes) (need : ℕ) (buffer : Bytes) (consumed : ℕ)
    → consumed ≤ length buffer
    → length (drop consumed buffer ++ more) < need
    → ltb (length buffer - consumed) need ≡ true
waits more need buffer consumed v h =
    lt→ltb _ _
      (omega (arith, length-append (drop consumed buffer) more, length-drop consumed buffer))

module _ (need : ℕ) where
  read_loop_enough :
      (incoming : List RecvResult) (buffer : Bytes) (consumed : ℕ)
      → consumed ≤ length buffer
      → need ≤ length (drop consumed buffer ++ arriving incoming)
      → Delivers need
          (read_loop need incoming buffer consumed)
          (drop consumed buffer ++ arriving incoming)
  unfolding read_loop
  read_loop_enough [] buffer consumed v h =
      elim (Bool-cases (ltb (length buffer - consumed) need)) [
        | inl e ↦ absurd (starved need buffer consumed h e)
        | inr e ↦ rw e (consume_lem need _ v (ltb-false _ _ e))
      ]
  read_loop_enough (received d ∷ rest) buffer consumed v h =
      elim (Bool-cases (ltb (length buffer - consumed) need)) [
        | inl e ↦ rw e (
            subst (λ xs. Delivers need (read_loop need rest (buffer ++ d) consumed) xs)
              (arrived buffer d rest consumed v)
              (read_loop_enough rest (buffer ++ d) consumed (omega (arith, length-append buffer d))
                (rw (arrived buffer d rest consumed v) h)))
        | inr e ↦ rw e (consume_lem need _ v (ltb-false _ _ e))
      ]
  read_loop_enough (_ ∷ rest) buffer consumed v h =
      elim (Bool-cases (ltb (length buffer - consumed) need)) [
        | inl e ↦ absurd (starved need buffer consumed h e)
        | inr e ↦ rw e (consume_lem need _ v (ltb-false _ _ e))
      ]

  read_loop_short :
      (incoming : List RecvResult) (buffer : Bytes) (consumed : ℕ)
      → consumed ≤ length buffer
      → length (drop consumed buffer ++ arriving incoming) < need
      → (read_loop need incoming buffer consumed).0 ≡ drop consumed buffer ++ arriving incoming
  unfolding read_loop
  read_loop_short [] buffer consumed v h =
      rw (waits [] need buffer consumed v h) (short_read_lem _ v ∙ sym (append-nil _))
  read_loop_short (received d ∷ rest) buffer consumed v h =
      rw (waits (d ++ arriving rest) need buffer consumed v h) (
        read_loop_short rest (buffer ++ d) consumed (omega (arith, length-append buffer d))
          (rw (arrived buffer d rest consumed v) h)
        ∙ arrived buffer d rest consumed v)
  read_loop_short (_ ∷ rest) buffer consumed v h =
      rw (waits [] need buffer consumed v h) (short_read_lem _ v ∙ sym (append-nil _))

-- If the stream will deliver `xs`, of `n` bytes at least, a read of `n` gives the first `n` of them,
-- and the stream will deliver the others.
pub read_enough :
    (n : ℕ) (s : UringBufferedStream) (xs : Bytes)
    → Holds s xs
    → n ≤ length xs
    → ((read n s).0 ≡ take n xs) × Holds (read n s).1 (drop n xs)
unfolding read
read_enough n s xs (v, e) h =
    subst (Delivers n (read_loop n s.incoming s.buffer s.consumed)) e
      (read_loop_enough n s.incoming s.buffer s.consumed v (rw e h))

-- If the stream will deliver fewer than `n` bytes before EOF or an error, a read of `n` gives them
-- all.
pub read_short :
    (n : ℕ) (s : UringBufferedStream) (xs : Bytes) → Holds s xs → length xs < n → (read n s).0 ≡ xs
unfolding read
read_short n s xs (v, e) h = read_loop_short n s.incoming s.buffer s.consumed v (rw e h) ∙ e

-- What is drained is a front part of what the stream will deliver, and the rest will still be
-- delivered.
pub drain_prefix :
    (s : UringBufferedStream) (xs : Bytes)
    → Holds s xs
    → (rest : Bytes) × (xs ≡ (drain_remaining s).0 ++ rest) × Holds (drain_remaining s).1 rest
unfolding drain_remaining
drain_prefix s xs (v, e) = (
  arriving s.incoming,
  sym e,
  (omega arith, ap (λ ys. ys ++ arriving s.incoming) (drop_all _ s.buffer (omega arith))),
)

-- The buffered stream is an instance of the interface.
abbrev pub uring : ByteReader UringBufferedStream
uring = record {
  read = read;
  drain_remaining = drain_remaining;
  Holds = Holds;
  read_enough = read_enough;
  read_short = read_short;
  drain_prefix = drain_prefix;
}
