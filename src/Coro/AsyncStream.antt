-- ===== src/Coro/AsyncStream.antt =====
-- src/coro/async_stream.cpp and `copyStream` of include/coro/async_stream.h. What the successive
-- sends of the socket return is a list, behind whose end every send fails with 0. `stop` is false
-- as long as a copy runs.
pub mod Copied
use cppvless.Common.{
  ℕ, zero, suc, ◌+◌, ◌-◌, min, Bool, true, false, List, [], ◌∷◌, ◌++◌, Bytes, length, take, drop,
  ltb, if◌then◌else◌,
}
use cppvless.Common.Int.{ℤ, pos, negsuc, is_positive}
use cppvless.Coro.BufferedStream.{RecvResult, received, eof, error}

-- The result of an `AsyncSend`: the bytes taken, at most those that were offered, or the error
-- `-(e + 1)`.
pub data SendResult : Type 0 where
  sent : ℕ → SendResult
  failed : ℕ → SendResult

-- The result of `writeFull`, with the bytes that the socket took and the sends still to come.
pub record Written : Type 0 where
  pub result : ℤ
  pub taken : Bytes
  pub sends : List SendResult

-- `(offset > 0) ? offset : sent`
abbrev pub stopped : ℕ → ℤ → List SendResult → Written
stopped zero r sends = record { result = r; taken = []; sends = sends }
stopped (suc n) r sends = record { result = pos (suc n); taken = []; sends = sends }

abbrev pub after_taken : Bytes → Written → Written
after_taken front w = record w { taken = front ++ w.taken }

-- The loop of `writeFull`, with the bytes from `offset` on.
unfoldable pub write_loop : List SendResult → Bytes → ℕ → Written
write_loop sends [] offset = record { result = pos offset; taken = []; sends = sends }
write_loop [] (b ∷ bs) offset = stopped offset (pos 0) []
write_loop (sent zero ∷ sends) (b ∷ bs) offset = stopped offset (pos 0) sends
write_loop (failed e ∷ sends) (b ∷ bs) offset = stopped offset (negsuc e) sends
write_loop (sent (suc n) ∷ sends) (b ∷ bs) offset =
    let k = min (suc n) (length (b ∷ bs)) in
    after_taken (take k (b ∷ bs)) (write_loop sends (drop k (b ∷ bs)) (offset + k))

unfoldable pub write_full : List SendResult → Bytes → Written
unfolding write_loop
write_full sends d = write_loop sends d 0

-- `copyStream`: whether it ended normally, what the target took, and whether its write side was
-- shut down.
pub record CopyEnd : Type 0 where
  pub normal : Bool
  pub taken : Bytes
  pub shut : Bool

abbrev pub and_taken : Bytes → CopyEnd → CopyEnd
and_taken front c = record c { taken = front ++ c.taken }

unfoldable pub copy_stream : List RecvResult → List SendResult → CopyEnd
unfolding write_full
copy_stream [] sends = record { normal = true; taken = []; shut = true }
copy_stream (eof ∷ rs) sends = record { normal = true; taken = []; shut = true }
copy_stream (error e ∷ rs) sends = record { normal = false; taken = []; shut = true }
copy_stream (received d ∷ rs) sends =
    let w = write_full sends d in
    let more = copy_stream rs w.sends in
    if is_positive w.result
    then and_taken w.taken more
    else record { normal = false; taken = w.taken; shut = false }
