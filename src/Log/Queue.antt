-- ===== src/Log/Queue.antt =====
-- What becomes of the lines that are logged (src/common/log.cpp).
use cppvless.Common.{
  ℕ, zero, suc, ◌+◌, ◌≤◌, ◌<◌, ◌≡◌, refl, sym, ap, subst, ◌∙◌, true, false, List, [], ◌∷◌, ◌++◌,
  inl, inr, append-nil, append_assoc, arith, Bytes, length, length-append, length-drop, take, drop,
  take-append-drop, min, ltb, ltb→lt, ltb-false, leb, Bool-cases,
}
use cppvless.Log.{
  Logger, max_queue_size, batch_limit, enqueue, take_batch, take_dropped, Section, enqueues,
  takes_batch, takes_dropped, Ran, run, finish,
}

-- The lines that a run of sections logs.
abbrev pub lines : List Section → List Bytes
lines [] = []
lines (enqueues line ∷ es) = line ∷ lines es
lines (takes_batch ∷ es) = lines es
lines (takes_dropped ∷ es) = lines es

-- The first list is the second one with that many of its members left out.
pub data Sublist : ℕ → List Bytes → List Bytes → Type 0 where
  empty : Sublist 0 [] []
  keep : {n : ℕ} {xs ys : List Bytes} (x : Bytes) → Sublist n xs ys → Sublist n (x ∷ xs) (x ∷ ys)
  skip : {n : ℕ} {xs ys : List Bytes} (x : Bytes) → Sublist n xs ys → Sublist (suc n) xs (x ∷ ys)

Sublist-refl : (xs : List Bytes) → Sublist 0 xs xs
Sublist-refl [] = empty
Sublist-refl (x ∷ xs) = keep x (Sublist-refl xs)

Sublist-append :
    (bs : List Bytes) {n : ℕ} {xs ys : List Bytes}
    → Sublist n xs ys
    → Sublist n (bs ++ xs) (bs ++ ys)
Sublist-append [] s = s
Sublist-append (b ∷ bs) s = keep b (Sublist-append bs s)

Sublist-skip :
    (bs : List Bytes) (x : Bytes) (ys : List Bytes) {n : ℕ} {xs : List Bytes}
    → Sublist n xs (bs ++ ys)
    → Sublist (suc n) xs (bs ++ (x ∷ ys))
Sublist-skip [] x ys s = skip x s
Sublist-skip (b ∷ bs) x ys (keep c s) = keep b (Sublist-skip bs x ys s)
Sublist-skip (b ∷ bs) x ys (skip c s) = skip b (Sublist-skip bs x ys s)

leb-false : (a b : ℕ) → leb a b ≡ false → b < a
leb-false a b h = ground arith

no_lines : (xs : List Bytes) → length xs ≤ 0 → xs ≡ []
no_lines [] h = refl
no_lines (x ∷ xs) h = absurd (omega arith)

enqueue_full :
    (line : Bytes) (l : Logger)
    → leb max_queue_size (length l.queue) ≡ true
    → enqueue line l ≡ record l { dropped = suc l.dropped }
unfolding enqueue
enqueue_full line l h = simp h refl

enqueue_room :
    (line : Bytes) (l : Logger)
    → leb max_queue_size (length l.queue) ≡ false
    → enqueue line l ≡ record l { queue = l.queue ++ (line ∷ []) }
unfolding enqueue
enqueue_room line l h = simp h refl

abbrev kept : Ran → List Bytes
kept r = r.written ++ r.logger.queue

-- As many as were counted as dropped are missing in what is written and waits.
abbrev pub Keeps : List Bytes → ℕ → Ran → Type 0
Keeps given before r =
    (n : ℕ) × Sublist n (r.written ++ r.logger.queue) given
    × (r.reported + r.logger.dropped ≡ before + n)

Keeps-skip :
    (bs : List Bytes) (x : Bytes) (ys : List Bytes) (before : ℕ) (r : Ran)
    → Keeps (bs ++ ys) (suc before) r
    → Keeps (bs ++ (x ∷ ys)) before r
Keeps-skip bs x ys before r (n, s, c) = (suc n, Sublist-skip bs x ys s, omega (arith, c))

-- The lines that were not dropped are written or wait, each once and in the order of the calls, and
-- of those that waited or were logged exactly as many are missing as have been counted as dropped
-- since, in a report or in the counter.
pub run-Sublist :
    (es : List Section) (l : Logger) → Keeps (l.queue ++ lines es) l.dropped (run l es)
unfolding run take_batch take_dropped
run-Sublist [] l =
    (0, subst (Sublist 0 l.queue) (sym (append-nil l.queue)) (Sublist-refl l.queue), omega arith)
run-Sublist (enqueues line ∷ es) l = elim (Bool-cases (leb max_queue_size (length l.queue))) [
  | inl full ↦
      subst (λ k. Keeps (l.queue ++ (line ∷ lines es)) l.dropped (run k es))
        (sym (enqueue_full line l full))
        (Keeps-skip l.queue line (lines es) l.dropped
          (run (record l { dropped = suc l.dropped }) es)
          (run-Sublist es (record l { dropped = suc l.dropped })))
  | inr room ↦
      subst (λ k. Keeps (l.queue ++ (line ∷ lines es)) l.dropped (run k es))
        (sym (enqueue_room line l room))
        (subst
          (λ given. Keeps given l.dropped (run (record l { queue = l.queue ++ (line ∷ []) }) es))
          (append_assoc l.queue (line ∷ []) (lines es))
          (run-Sublist es (record l { queue = l.queue ++ (line ∷ []) })))
]
run-Sublist (takes_batch ∷ es) l =
    let n = min (length l.queue) batch_limit in
    let l' = record l { queue = drop n l.queue } in
    let rest = run-Sublist es l' in
    (
      rest.0,
      subst (λ xs. Sublist rest.0 xs (l.queue ++ lines es))
          (sym (append_assoc (take n l.queue) (run l' es).written (run l' es).logger.queue))
          (subst (Sublist rest.0 (take n l.queue ++ kept (run l' es)))
            (sym (append_assoc (take n l.queue) (drop n l.queue) (lines es))
              ∙ ap (λ q. q ++ lines es) (take-append-drop n l.queue))
            (Sublist-append (take n l.queue) rest.1)),
      rest.2,
    )
run-Sublist (takes_dropped ∷ es) l =
    let rest = run-Sublist es (record l { dropped = 0 }) in (rest.0, rest.1, omega (arith, rest.2))

enqueue_bound :
    (line : Bytes) (l : Logger)
    → length l.queue ≤ max_queue_size
    → length (enqueue line l).queue ≤ max_queue_size
enqueue_bound line l h = elim (Bool-cases (leb max_queue_size (length l.queue))) [
  | inl full ↦ rw (enqueue_full line l full) h
  | inr room ↦
      rw (enqueue_room line l room)
        (omega (arith, length-append l.queue (line ∷ []), leb-false _ _ room))
]

-- A queue within its limit stays within it in any run of sections.
pub run_bound :
    (es : List Section) (l : Logger)
    → length l.queue ≤ max_queue_size
    → length (run l es).logger.queue ≤ max_queue_size
unfolding run take_batch take_dropped
run_bound [] l h = h
run_bound (enqueues line ∷ es) l h = run_bound es (enqueue line l) (enqueue_bound line l h)
run_bound (takes_batch ∷ es) l h =
    let n = min (length l.queue) batch_limit in
    run_bound es (record l { queue = drop n l.queue }) (omega (arith, length-drop n l.queue, h))
run_bound (takes_dropped ∷ es) l h = run_bound es (record l { dropped = 0 }) h

finish_empty :
    (l : Logger)
    → l.queue ≡ []
    → ◌≡◌ {A = List Bytes × Logger} ([], l) (l.queue, record l { queue = [] })
finish_empty l e =
    ap (λ q. ([], record l { queue = q })) e ∙ ap (λ q. (q, record l { queue = [] })) (sym e)

-- With fuel for the length of the queue at least, the worker that has been told to stop writes all
-- that waits, in order, and leaves an empty queue.
pub finish_all :
    (fuel : ℕ) (l : Logger)
    → length l.queue ≤ fuel
    → finish fuel l ≡ (l.queue, record l { queue = [] })
unfolding finish take_batch
finish_all zero l h = finish_empty l (no_lines l.queue h)
finish_all (suc fuel) l h = elim (Bool-cases (ltb 0 (length l.queue))) [
  | inl some_left ↦
      let n = min (length l.queue) batch_limit in
      let rest =
        finish_all fuel (record l { queue = drop n l.queue })
          (omega (arith, length-drop n l.queue, ltb→lt _ _ some_left)) in
      simp (some_left, rest) (ap (λ q. (q, record l { queue = [] })) (take-append-drop n l.queue))
  | inr none_left ↦
      simp none_left (finish_empty l (no_lines l.queue (omega (arith, ltb-false _ _ none_left))))
]
