-- ===== src/Tests/Coro.antt =====
-- Copies between streams, and pending operations (include/coro).
use cppvless.Common.{
  ◌≤◌, ℕ, Bool, false, none, some, if◌then◌else◌, refl, true, List, ◌≡◌, arith, [], ◌∷◌, Bytes,
}
use cppvless.Coro.AsyncStream.{SendResult, sent, copy_stream}
use cppvless.Coro.AsyncStream.Copied.{copy_stream-arriving}
use cppvless.Coro.BufferedStream.{received, eof}
use cppvless.Common.Int.{pos}
use cppvless.Coro.PendingOps.{
  UringOp, PendingUringOps, complete_from_cqe, cancel_fd, apply, Event, awaits, completes, begins,
  steps,
}
use cppvless.Coro.PendingOps.Cancelled.{is_fd, complete_from_cqe-cancel_fd}
use cppvless.Coro.PendingOps.Resumed.{resumptions, resumptions-awaited}

abbrev bytes : Bytes
bytes = 1 ∷ 2 ∷ 3 ∷ []

abbrev sends : List SendResult
sends = sent 1 ∷ sent 9 ∷ sent 1 ∷ []

copy_stream-arriving_example :
    ((copy_stream (received (1 ∷ 2 ∷ []) ∷ received (3 ∷ []) ∷ eof ∷ []) sends).taken ≡ bytes)
    × ((copy_stream (received (1 ∷ 2 ∷ []) ∷ received (3 ∷ []) ∷ eof ∷ []) sends).shut ≡ true)
copy_stream-arriving_example =
    copy_stream-arriving (received (1 ∷ 2 ∷ []) ∷ received (3 ∷ []) ∷ eof ∷ []) sends
      (tt, (tt, (tt, tt))) (tt, (tt, (tt, tt))) (omega arith)

-- No coroutine is at its end, and no operation waits.
abbrev never : ℕ → Bool
never h = false

abbrev idle : UringOp
idle = record {
  armed = false;
  handle = none;
  fd = none;
  result = pos 0;
  receives = true;
  buf = [];
  received_data = [];
}

abbrev nothing_waits : PendingUringOps
nothing_waits = record { ops = λ id. idle; by_fd = λ fd. [] }

-- The coroutine 1 reads the descriptor 5.
abbrev read_waits : PendingUringOps
read_waits = (apply never (awaits 8 (some 5) 1 true) nothing_waits).1

complete_from_cqe-cancel_fd_example :
    (complete_from_cqe never 8 (pos 3) (cancel_fd 5 read_waits)).0 ≡ (
      if is_fd 5 (read_waits.ops 8).fd
      then none
      else (complete_from_cqe never 8 (pos 3) read_waits).0)
complete_from_cqe-cancel_fd_example =
    complete_from_cqe-cancel_fd never read_waits 5 8 (pos 3)
      (steps (awaits 8 (some 5) 1 true) (begins (λ id. refl)) refl)

abbrev events : List Event
events = awaits 8 (some 5) 1 true ∷ completes 8 (pos 3) ∷ completes 8 (pos 3) ∷ []

resumptions-awaited_example : resumptions never 8 events nothing_waits ≤ 1
resumptions-awaited_example = resumptions-awaited never 8 events nothing_waits
