-- ===== src/Coro/PendingOps.antt =====
-- include/coro/uring_awaitable.h: the operations that wait for a completion of io_uring, and the
-- table by which they are cancelled. An operation is known by its address, a suspended coroutine by
-- a number. Maps are functions.
pub mod Cancelled
pub mod Resumed
use cppvless.Common.{
  ℕ, zero, suc, Bool, true, false, not, ◌&&◌, List, [], ◌∷◌, Bytes, take, ◌==◌, if◌then◌else◌,
  Option, none, some, ◌≡◌,
}
use cppvless.Common.Int.{ℤ, pos, negsuc, is_positive, to_ℕ}

-- `armed` is whether `onComplete` is set, a negative descriptor is none. `receives` tells a `RecvOp`
-- from the others, `buf` is what the kernel wrote.
pub record UringOp : Type 0 where
  pub armed : Bool
  pub handle : Option ℕ
  pub fd : Option ℕ
  pub result : ℤ
  pub receives : Bool
  pub buf : Bytes
  pub received_data : Bytes

-- The operations in memory, and `byFd_`, where a descriptor without operations has the empty list.
pub record PendingUringOps : Type 0 where
  pub ops : ℕ → UringOp
  pub by_fd : ℕ → List ℕ

abbrev pub set : {A : Type 0} → (ℕ → A) → ℕ → A → ℕ → A
set f key value k = if k == key then value else f k

unfoldable pub contains_op : ℕ → List ℕ → Bool
contains_op id [] = false
contains_op id (x ∷ xs) = let rest = contains_op id xs in if id == x then true else rest

-- `insert` and `erase` of a set
unfoldable pub insert : ℕ → List ℕ → List ℕ
unfolding contains_op
insert id xs = if contains_op id xs then xs else id ∷ xs

unfoldable pub erase : ℕ → List ℕ → List ℕ
erase id [] = []
erase id (x ∷ xs) = let rest = erase id xs in if id == x then rest else x ∷ rest

abbrev pub inserted : PendingUringOps → ℕ → Option ℕ → PendingUringOps
inserted p id none = p
inserted p id (some fd) = record p { by_fd = set p.by_fd fd (insert id (p.by_fd fd)) }

abbrev pub erased : PendingUringOps → ℕ → Option ℕ → PendingUringOps
erased p id none = p
erased p id (some fd) = record p { by_fd = set p.by_fd fd (erase id (p.by_fd fd)) }

unfoldable pub add : ℕ → PendingUringOps → PendingUringOps
unfolding insert
add id p = inserted p id (p.ops id).fd

unfoldable pub remove : ℕ → PendingUringOps → PendingUringOps
unfolding erase
remove id p = erased p id (p.ops id).fd

abbrev pub update : ℕ → (UringOp → UringOp) → PendingUringOps → PendingUringOps
update id f p = record p { ops = set p.ops id (f (p.ops id)) }

abbrev pub disarmed : UringOp → UringOp
disarmed op = record op { armed = false; handle = none }

-- The loop of `cancelFd`.
unfoldable pub disarm_all : List ℕ → (ℕ → UringOp) → ℕ → UringOp
disarm_all [] ops = ops
disarm_all (id ∷ ids) ops = disarm_all ids (set ops id (disarmed (ops id)))

unfoldable pub cancel_fd : ℕ → PendingUringOps → PendingUringOps
unfolding disarm_all
cancel_fd fd p = record { ops = disarm_all (p.by_fd fd) p.ops; by_fd = set p.by_fd fd [] }

abbrev pub begun : Option ℕ → ℕ → UringOp → UringOp
begun fd h op = record op { fd = fd; handle = some h; armed = true }

abbrev pub aborted : ℤ → UringOp → UringOp
aborted e op = record op { result = e; armed = false }

abbrev pub completed : ℤ → UringOp → UringOp
completed res op = record op {
  result = res;
  received_data =
      if op.receives && is_positive res then take (to_ℕ res) op.buf else op.received_data;
  armed = false;
}

-- What may happen: a coroutine waits on an operation that does not wait, a completion arrives,
-- and a descriptor is cancelled before it is closed. Addresses are not 0.
pub data Event : Type 0 where
  awaits : ℕ → Option ℕ → ℕ → Bool → Event
  completes : ℕ → ℤ → Event
  cancels : ℕ → Event

module _ (is_done : ℕ → Bool) where
  -- The coroutine that is resumed, if it is not at its end.
  abbrev pub resumed : Option ℕ → Option ℕ
  resumed none = none
  resumed (some h) = if is_done h then none else some h

  -- `abortOp`
  unfoldable pub abort_op : ℕ → ℤ → PendingUringOps → Option ℕ × PendingUringOps
  unfolding remove
  abort_op id e p = (resumed (p.ops id).handle, update id (aborted e) (remove id p))

  -- The three functions `complete`.
  unfoldable pub complete : ℕ → ℤ → PendingUringOps → Option ℕ × PendingUringOps
  unfolding remove
  complete id res p = (resumed (p.ops id).handle, update id (completed res) (remove id p))

  unfoldable pub complete_from_cqe : ℕ → ℤ → PendingUringOps → Option ℕ × PendingUringOps
  unfolding complete
  complete_from_cqe zero res p = (none, p)
  complete_from_cqe (suc n) res p =
      if (p.ops (suc n)).armed then complete (suc n) res p else (none, p)

  -- `await_suspend` of all awaitables: a coroutine waits, unless there is no room in the ring.
  unfoldable pub await_suspend :
      ℕ → Option ℕ → ℕ → Bool → PendingUringOps → Option ℕ × PendingUringOps
  unfolding add abort_op
  await_suspend id fd h has_sqe p =
      let waiting = add id (update id (begun fd h) p) in
      if has_sqe then (none, waiting) else abort_op id (negsuc 0) waiting

  unfoldable pub apply : Event → PendingUringOps → Option ℕ × PendingUringOps
  unfolding await_suspend complete_from_cqe cancel_fd
  apply (awaits id fd h has_sqe) p = await_suspend id fd h has_sqe p
  apply (completes id res) p = complete_from_cqe id res p
  apply (cancels fd) p = (none, cancel_fd fd p)

  abbrev pub IsPossible : Event → PendingUringOps → Type 0
  IsPossible (awaits id fd h has_sqe) p = (p.ops id).armed ≡ false
  IsPossible (completes id res) p = Unit
  IsPossible (cancels fd) p = Unit

  pub data Reachable : PendingUringOps → Type 0 where
    begins :
        {ops : ℕ → UringOp}
        → ((id : ℕ) → (ops id).armed ≡ false)
        → Reachable (record { ops = ops; by_fd = λ fd. [] })
    steps :
        {p : PendingUringOps} (e : Event) → Reachable p → IsPossible e p → Reachable (apply e p).1
