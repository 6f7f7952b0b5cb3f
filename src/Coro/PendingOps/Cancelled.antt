-- ===== src/Coro/PendingOps/Cancelled.antt =====
-- Late completions after `cancelFd` (include/coro/uring_awaitable.h).
use cppvless.Common.{
  ℕ, zero, suc, ◌≡◌, refl, sym, ap, ◌∙◌, Bool, true, false, ◌&&◌, inl, inr, List, [], ◌∷◌, ◌==◌,
  if◌then◌else◌, Option, none, some, Bool-cases, arith,
}
use cppvless.Common.Int.{ℤ, negsuc}
use cppvless.Coro.PendingOps.{
  UringOp, PendingUringOps, set, contains_op, insert, erase, erased, add, remove, update, disarmed,
  disarm_all, cancel_fd, aborted, completed, resumed, abort_op, complete, complete_from_cqe,
  await_suspend, awaits, completes, cancels, apply, Reachable, begins, steps,
}

abbrev pub is_fd : ℕ → Option ℕ → Bool
is_fd fd none = false
is_fd fd (some g) = g == fd

contains_op-insert :
    (j id : ℕ) (xs : List ℕ)
    → contains_op j (insert id xs) ≡ (if j == id then true else contains_op j xs)
unfolding insert
contains_op-insert j id xs = ground arith

contains_op-erase :
    (j id : ℕ) (xs : List ℕ)
    → contains_op j (erase id xs) ≡ (if j == id then false else contains_op j xs)
unfolding erase contains_op
contains_op-erase j id [] = ground arith
contains_op-erase j id (x ∷ xs) = ground (arith, contains_op-erase j id xs)

pub disarm_all_lem :
    (ids : List ℕ) (ops : ℕ → UringOp) (j : ℕ)
    → disarm_all ids ops j ≡ (if contains_op j ids then disarmed (ops j) else ops j)
unfolding disarm_all contains_op
disarm_all_lem [] ops j = refl
disarm_all_lem (id ∷ ids) ops j =
    disarm_all_lem ids (set ops id (disarmed (ops id))) j ∙ ground arith

-- The table has exactly the operations that wait, each under its descriptor.
IsTracked : PendingUringOps → Type 0
IsTracked p =
    (id fd : ℕ) → contains_op id (p.by_fd fd) ≡ ((p.ops id).armed && is_fd fd (p.ops id).fd)

-- An operation that is removed and no longer waits.
ended-IsTracked :
    (id : ℕ) (f : UringOp → UringOp) (p : PendingUringOps)
    → ((op : UringOp) → (f op).armed ≡ false)
    → IsTracked p
    → IsTracked (update id f (remove id p))
unfolding IsTracked remove
ended-IsTracked id f p h t j fd = by_fd (p.ops id).fd refl
  where
    by_fd :
        (o : Option ℕ)
        → (p.ops id).fd ≡ o
        → contains_op j ((erased p id o).by_fd fd) ≡ (
            let op = set (erased p id o).ops id (f ((erased p id o).ops id)) j in
            op.armed && is_fd fd op.fd)
    by_fd none e = ground (arith, h (p.ops id), t j fd, t id fd)
    by_fd (some g) e = ground (
      arith,
      h (p.ops id),
      t j fd,
      t id fd,
      contains_op-erase j id (p.by_fd g),
      contains_op-erase j id (p.by_fd fd),
    )

waiting-IsTracked :
    (id h : ℕ) (fd : Option ℕ) (p : PendingUringOps)
    → (p.ops id).armed ≡ false
    → IsTracked p
    → IsTracked (add id (update id (λ op. record op { fd = fd; handle = some h; armed = true }) p))
unfolding IsTracked add
waiting-IsTracked id h none p a t j fd = ground (arith, t j fd, t id fd)
waiting-IsTracked id h (some g) p a t j fd = ground (
  arith,
  t j fd,
  t id fd,
  contains_op-insert j id (p.by_fd g),
  contains_op-insert j id (p.by_fd fd),
)

cancelled-IsTracked : (g : ℕ) (p : PendingUringOps) → IsTracked p → IsTracked (cancel_fd g p)
unfolding IsTracked cancel_fd contains_op
cancelled-IsTracked g p t j fd = ground (arith, disarm_all_lem (p.by_fd g) p.ops j, t j fd, t j g)

module _ (is_done : ℕ → Bool) where
  Reachable-IsTracked : (p : PendingUringOps) → Reachable is_done p → IsTracked p
  unfolding apply await_suspend complete_from_cqe complete abort_op
  Reachable-IsTracked p (begins a) = unfold IsTracked contains_op in λ j fd. ground (arith, a j)
  Reachable-IsTracked p (steps (awaits id fd h true) r i) =
      waiting-IsTracked id h fd _ i (Reachable-IsTracked _ r)
  Reachable-IsTracked p (steps (awaits id fd h false) r i) =
      ended-IsTracked id (aborted (negsuc 0)) _ (λ op. refl)
        (waiting-IsTracked id h fd _ i (Reachable-IsTracked _ r))
  Reachable-IsTracked p (steps (completes zero res) r i) = Reachable-IsTracked _ r
  Reachable-IsTracked p (steps {p = q} (completes (suc n) res) r i) =
      elim (Bool-cases (q.ops (suc n)).armed) [
        | inl e ↦
            simp e
              (ended-IsTracked (suc n) (completed res) q (λ op. refl) (Reachable-IsTracked q r))
        | inr e ↦ simp e (Reachable-IsTracked q r)
      ]
  Reachable-IsTracked p (steps (cancels fd) r i) =
      cancelled-IsTracked fd _ (Reachable-IsTracked _ r)

  abbrev resumes : UringOp → Option ℕ
  resumes op = if op.armed then resumed is_done op.handle else none

  complete_from_cqe-resumes :
      (n : ℕ) (res : ℤ) (p : PendingUringOps)
      → (complete_from_cqe is_done (suc n) res p).0 ≡ resumes (p.ops (suc n))
  unfolding complete_from_cqe complete
  complete_from_cqe-resumes n res p = elim (Bool-cases (p.ops (suc n)).armed) [
    | inl e ↦ simp e
    | inr e ↦ simp e
  ]

  -- However operations were awaited, completed and cancelled before: after `cancelFd` a late
  -- completion of an operation on the descriptor resumes nobody, and every other completion resumes
  -- whom it would have resumed without it.
  pub complete_from_cqe-cancel_fd :
      (p : PendingUringOps) (fd id : ℕ) (res : ℤ)
      → Reachable is_done p
      → (complete_from_cqe is_done id res (cancel_fd fd p)).0
        ≡ (if is_fd fd (p.ops id).fd then none else (complete_from_cqe is_done id res p).0)
  unfolding cancel_fd IsTracked
  complete_from_cqe-cancel_fd p fd zero res r = unfold complete_from_cqe in ground arith
  complete_from_cqe-cancel_fd p fd (suc n) res r =
      complete_from_cqe-resumes n res (cancel_fd fd p)
      ∙ ap resumes (disarm_all_lem (p.by_fd fd) p.ops (suc n))
      ∙ same
      ∙ ap (λ o. if is_fd fd (p.ops (suc n)).fd then none else o)
          (sym (complete_from_cqe-resumes n res p))
    where
      same :
          resumes
            (if contains_op (suc n) (p.by_fd fd) then disarmed (p.ops (suc n)) else p.ops (suc n))
          ≡ (if is_fd fd (p.ops (suc n)).fd then none else resumes (p.ops (suc n)))
      same = rw (Reachable-IsTracked p r (suc n) fd) (ground arith)
