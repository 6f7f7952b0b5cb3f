-- ===== src/Coro/AsyncStream/Copied.antt =====
-- What a write and a copy bring to the other side (src/coro/async_stream.cpp).
use cppvless.Common.{
  ℕ, zero, suc, ◌+◌, ◌≤◌, ◌≡◌, refl, sym, ap, ◌∙◌, min, true, false, List, [], ◌∷◌, ◌++◌,
  append_assoc, arith, Bytes, All, length, length-append, length-take, length-drop, take, drop,
  take-append-drop,
}
use cppvless.Common.Int.{ℤ, pos, negsuc, is_positive}
use cppvless.Coro.BufferedStream.{RecvResult, received, eof, error}
use cppvless.Coro.BufferedStream.Laws.{arriving}
use cppvless.Coro.AsyncStream.{
  SendResult, sent, failed, Written, stopped, write_loop, write_full, copy_stream,
}

-- The bytes are taken from the front, in order, and a positive result counts them.
record Counts (offset : ℕ) (d : Bytes) (w : Written) : Type 0 where
  front : (rest : Bytes) × (d ≡ w.taken ++ rest)
  counted : is_positive w.result ≡ true → w.result ≡ pos (offset + length w.taken)

stopped-Counts :
    (offset : ℕ) (d : Bytes) (r : ℤ) (sends : List SendResult)
    → is_positive r ≡ false
    → Counts offset d (stopped offset r sends)
stopped-Counts zero d r sends h = record { front = (d, refl); counted = λ p. absurd cc }
stopped-Counts (suc n) d r sends h = record {
  front = (d, refl);
  counted = λ p. ap pos (omega arith);
}

write_loop-Counts :
    (sends : List SendResult) (d : Bytes) (offset : ℕ) → Counts offset d (write_loop sends d offset)
unfolding write_loop
write_loop-Counts sends [] offset = record {
  front = ([], refl);
  counted = λ p. ap pos (omega arith);
}
write_loop-Counts [] (b ∷ bs) offset = stopped-Counts offset (b ∷ bs) (pos 0) [] refl
write_loop-Counts (sent zero ∷ sends) (b ∷ bs) offset =
    stopped-Counts offset (b ∷ bs) (pos 0) sends refl
write_loop-Counts (failed e ∷ sends) (b ∷ bs) offset =
    stopped-Counts offset (b ∷ bs) (negsuc e) sends refl
write_loop-Counts (sent (suc n) ∷ sends) (b ∷ bs) offset =
    let k = min (suc n) (length (b ∷ bs)) in
    let w = write_loop sends (drop k (b ∷ bs)) (offset + k) in
    let c = write_loop-Counts sends (drop k (b ∷ bs)) (offset + k) in
    let (rest, e) = c.front in
    record {
      front = (
        rest,
        sym (take-append-drop k (b ∷ bs))
            ∙ ap (λ x. take k (b ∷ bs) ++ x) e
            ∙ sym (append_assoc (take k (b ∷ bs)) w.taken rest),
      );
      counted = λ p.
          c.counted p
          ∙ ap pos (omega (arith, length-append (take k (b ∷ bs)) w.taken, length-take k (b ∷ bs)));
    }

-- The socket takes a front part of the bytes, whatever its sends return.
pub write_full-front :
    (sends : List SendResult) (d : Bytes)
    → (rest : Bytes) × (d ≡ (write_full sends d).taken ++ rest)
unfolding write_full
write_full-front sends d = (write_loop-Counts sends d 0).front

-- A positive result of `writeFull` is the number of bytes that the socket took.
pub write_full-result :
    (sends : List SendResult) (d : Bytes)
    → is_positive (write_full sends d).result ≡ true
    → (write_full sends d).result ≡ pos (length (write_full sends d).taken)
unfolding write_full
write_full-result sends d h = (write_loop-Counts sends d 0).counted h ∙ ap pos (omega arith)

-- Sends that take a byte at least.
abbrev pub IsWorking : SendResult → Type 0
IsWorking (sent zero) = ⊥
IsWorking (sent (suc n)) = Unit
IsWorking (failed e) = ⊥

record Whole (sends : List SendResult) (offset : ℕ) (d : Bytes) (w : Written) : Type 0 where
  all_taken : w.taken ≡ d
  all_counted : w.result ≡ pos (offset + length d)
  still_working : All IsWorking w.sends
  still_enough : length sends ≤ length w.sends + length d

write_loop-Whole :
    (sends : List SendResult) (d : Bytes) (offset : ℕ)
    → All IsWorking sends
    → length d ≤ length sends
    → Whole sends offset d (write_loop sends d offset)
unfolding write_loop
write_loop-Whole sends [] offset h le = record {
  all_taken = refl;
  all_counted = ap pos (omega arith);
  still_working = h;
  still_enough = omega arith;
}
write_loop-Whole [] (b ∷ bs) offset h le = absurd (omega arith)
write_loop-Whole (sent zero ∷ sends) (b ∷ bs) offset h le = absurd h.0
write_loop-Whole (failed e ∷ sends) (b ∷ bs) offset h le = absurd h.0
write_loop-Whole (sent (suc n) ∷ sends) (b ∷ bs) offset h le =
    let k = min (suc n) (length (b ∷ bs)) in
    let size = length-drop k (b ∷ bs) in
    let w = write_loop-Whole sends (drop k (b ∷ bs)) (offset + k) h.1 (omega (arith, size, le)) in
    record {
      all_taken = ap (λ x. take k (b ∷ bs) ++ x) w.all_taken ∙ take-append-drop k (b ∷ bs);
      all_counted = w.all_counted ∙ ap pos (omega (arith, size));
      still_working = w.still_working;
      still_enough = omega (arith, size, w.still_enough);
    }

-- `writeFull` is taken whole by as many working sends as it has bytes.
pub write_full_lem :
    (sends : List SendResult) (d : Bytes)
    → All IsWorking sends
    → length d ≤ length sends
    → ((write_full sends d).taken ≡ d) × ((write_full sends d).result ≡ pos (length d))
unfolding write_full
write_full_lem sends d h le =
    let w = write_loop-Whole sends d 0 h le in (w.all_taken, w.all_counted ∙ ap pos (omega arith))

-- Then the sends that are left work as well, and are as many as the bytes that were not needed.
pub write_full-IsWorking :
    (sends : List SendResult) (d : Bytes)
    → All IsWorking sends
    → length d ≤ length sends
    → All IsWorking (write_full sends d).sends
      × (length sends ≤ length (write_full sends d).sends + length d)
unfolding write_full
write_full-IsWorking sends d h le =
    let w = write_loop-Whole sends d 0 h le in (w.still_working, w.still_enough)

-- A positive result comes with data.
abbrev pub IsFilled : RecvResult → Type 0
IsFilled (received []) = ⊥
IsFilled (received (b ∷ bs)) = Unit
IsFilled eof = Unit
IsFilled (error e) = Unit

-- If every send takes a byte at least and there are as many sends as bytes, a copy brings over all
-- that arrives before the first EOF or error, and then shuts the write side down.
pub copy_stream-arriving :
    (rs : List RecvResult) (sends : List SendResult)
    → All IsFilled rs
    → All IsWorking sends
    → length (arriving rs) ≤ length sends
    → ((copy_stream rs sends).taken ≡ arriving rs) × ((copy_stream rs sends).shut ≡ true)
unfolding copy_stream write_full
copy_stream-arriving [] sends f h le = (refl, refl)
copy_stream-arriving (eof ∷ rs) sends f h le = (refl, refl)
copy_stream-arriving (error e ∷ rs) sends f h le = (refl, refl)
copy_stream-arriving (received [] ∷ rs) sends f h le = absurd f.0
copy_stream-arriving (received (b ∷ bs) ∷ rs) sends f h le =
    let w = write_loop sends (b ∷ bs) 0 in
    let whole =
      write_loop-Whole sends (b ∷ bs) 0 h (omega (arith, length-append bs (arriving rs), le)) in
    let (rest, shut) =
      copy_stream-arriving rs w.sends f.1 whole.still_working
        (omega (arith, length-append bs (arriving rs), le, whole.still_enough)) in
    let count : 0 + length (b ∷ bs) ≡ suc (length bs) = omega arith in
    let goes_on : is_positive w.result ≡ true =
      ap is_positive whole.all_counted ∙ ap (λ n. is_positive (pos n)) count in
    simp goes_on (
      ap (λ x. x ++ (copy_stream rs w.sends).taken) whole.all_taken ∙ ap (λ x. (b ∷ bs) ++ x) rest,
      shut,
    )
