-- ===== src/Coro/PendingOps/Resumed.antt =====
-- How often a coroutine is resumed (include/coro/uring_awaitable.h).
use cppvless.Common.{
  ℕ, zero, suc, ◌+◌, ◌≤◌, ◌≡◌, refl, ap, ◌∙◌, Bool, true, false, inl, inr, List, [], ◌∷◌, ◌==◌,
  if◌then◌else◌, Option, none, some, Bool-cases, arith,
}
use cppvless.Common.Int.{ℤ, negsuc}
use cppvless.Coro.PendingOps.{
  UringOp, PendingUringOps, set, inserted, erased, add, remove, update, cancel_fd, begun, aborted,
  completed, resumed, abort_op, complete, complete_from_cqe, await_suspend, Event, awaits,
  completes, cancels, apply,
}
use cppvless.Coro.PendingOps.Cancelled.{disarm_all_lem}

add-ops : (id : ℕ) (p : PendingUringOps) → (add id p).ops ≡ p.ops
unfolding add
add-ops id p = by_fd (p.ops id).fd
  where
    by_fd : (o : Option ℕ) → (inserted p id o).ops ≡ p.ops
    by_fd none = refl
    by_fd (some fd) = refl

remove-ops : (id : ℕ) (p : PendingUringOps) → (remove id p).ops ≡ p.ops
unfolding remove
remove-ops id p = by_fd (p.ops id).fd
  where
    by_fd : (o : Option ℕ) → (erased p id o).ops ≡ p.ops
    by_fd none = refl
    by_fd (some fd) = refl

abbrev one_if : Bool → ℕ
one_if b = if b then 1 else 0

-- Whether this event resumes the coroutine that awaits the operation.
abbrev resumes_by : ℕ → Event → Option ℕ → Bool
resumes_by id e none = false
resumes_by id (awaits x fd h has_sqe) (some _) = x == id
resumes_by id (completes x res) (some _) = x == id
resumes_by id (cancels fd) (some _) = false

abbrev awaits_on : ℕ → Event → Bool
awaits_on id (awaits x fd h has_sqe) = x == id
awaits_on id _ = false

abbrev pub awaited : ℕ → List Event → ℕ
awaited id [] = 0
awaited id (e ∷ es) = one_if (awaits_on id e) + awaited id es

waiting_armed :
    (id x : ℕ) (fd : Option ℕ) (h : ℕ) (p : PendingUringOps)
    → ((add x (update x (begun fd h) p)).ops id).armed
      ≡ (if id == x then true else (p.ops id).armed)
waiting_armed id x fd h p =
    ap (λ ops. (ops id).armed) (add-ops x (update x (begun fd h) p)) ∙ ground arith

left_armed :
    (id x : ℕ) (f : UringOp → UringOp) (p : PendingUringOps)
    → ((update x f (remove x p)).ops id).armed
      ≡ (if id == x then (f (p.ops x)).armed else (p.ops id).armed)
left_armed id x f p = ap (λ ops. (set ops x (f (ops x)) id).armed) (remove-ops x p) ∙ ground arith

on_awaits :
    (id x : ℕ) (fd : Option ℕ) (h : ℕ) (o : Option ℕ)
    → one_if (resumes_by id (awaits x fd h false) o) ≤ one_if (x == id)
on_awaits id x fd h none = omega arith
on_awaits id x fd h (some g) = omega arith

on_completes :
    (id x : ℕ) (res : ℤ) (o : Option ℕ)
    → one_if (resumes_by id (completes x res) o) ≤ one_if (x == id)
on_completes id x res none = omega arith
on_completes id x res (some g) = omega arith

module _ (is_done : ℕ → Bool) where
  unfoldable pub resumptions : ℕ → List Event → PendingUringOps → ℕ
  unfolding apply
  resumptions id [] p = 0
  resumptions id (e ∷ es) p =
      let (o, p') = apply is_done e p in one_if (resumes_by id e o) + resumptions id es p'

  -- A resumption uses up an await.
  event_lem :
      (id : ℕ) (e : Event) (p : PendingUringOps)
      → one_if (resumes_by id e (apply is_done e p).0) + one_if ((apply is_done e p).1.ops id).armed
        ≤ one_if (awaits_on id e) + one_if (p.ops id).armed
  unfolding apply await_suspend abort_op complete_from_cqe complete cancel_fd
  event_lem id (awaits x fd h true) p = ground (arith, waiting_armed id x fd h p)
  event_lem id (awaits x fd h false) p =
      let q = add x (update x (begun fd h) p) in
      ground (
        arith,
        left_armed id x (aborted (negsuc 0)) q,
        waiting_armed id x fd h p,
        on_awaits id x fd h (resumed is_done (q.ops x).handle),
      )
  event_lem id (completes zero res) p = omega arith
  event_lem id (completes (suc n) res) p = elim (Bool-cases (p.ops (suc n)).armed) [
    | inl e ↦ simp e (
        ground (
          arith,
          left_armed id (suc n) (completed res) p,
          on_completes id (suc n) res (resumed is_done (p.ops (suc n)).handle),
        ))
    | inr e ↦ simp e (omega arith)
  ]
  event_lem id (cancels fd) p = ground (arith, disarm_all_lem (p.by_fd fd) p.ops id)

  -- However the events follow each other: a coroutine is resumed at most once for each time that it
  -- awaited the operation, and once more if it waited at the start.
  pub resumptions-awaited :
      (id : ℕ) (es : List Event) (p : PendingUringOps)
      → resumptions id es p ≤ awaited id es + (if (p.ops id).armed then 1 else 0)
  unfolding resumptions
  resumptions-awaited id [] p = omega arith
  resumptions-awaited id (e ∷ es) p =
      omega (arith, event_lem id e p, resumptions-awaited id es (apply is_done e p).1)
