-- ===== src/Coro/Agreement.antt =====
-- Two parsers over streams that hold the same bytes, however these were cut into reads.
use cppvless.Common.{
  ℕ, ◌<◌, ◌≡◌, refl, sym, ◌∙◌, subst, Bool, true, false, inl, inr, arith, Bytes, length, drop,
  length-take, leb, leb→le, ◌==◌, if◌then◌else◌, Bool-cases, Result, ok, err,
}
use cppvless.Coro.ByteReader.{ByteReader}
use cppvless.Coro.Parsing.{Parser, ◌>>=◌, return, throw, guard, exactly, read_exact}

module _ {S T : Type 0} (r : ByteReader S) (q : ByteReader T) where
  -- The same value with the same bytes left, or the same error.
  abbrev pub SameOutcome : {E A : Type 0} → Result E (A × S) → Result E (A × T) → Type 0
  SameOutcome (ok (a, s)) (ok (b, t)) = (a ≡ b) × ((ys : Bytes) × r.Holds s ys × q.Holds t ys)
  SameOutcome (err e) (err f) = e ≡ f
  SameOutcome _ _ = ⊥

  pub data Agrees {E A : Type 0} (m : Parser S E A) (n : Parser T E A) : Type 0 where
    agreed :
        ((s : S) (t : T) (xs : Bytes) → r.Holds s xs → q.Holds t xs → SameOutcome (m s) (n t))
        → Agrees m n

  pub run_agreed :
      {E A : Type 0} {m : Parser S E A} {n : Parser T E A}
      → Agrees m n
      → (s : S) (t : T) (xs : Bytes) → r.Holds s xs
      → q.Holds t xs
      → SameOutcome (m s) (n t)
  run_agreed (agreed h) = h

  bind_outcomes :
      {E A B : Type 0} (x : Result E (A × S)) (y : Result E (A × T)) (f : A → Parser S E B)
      (g : A → Parser T E B)
      → SameOutcome x y
      → ((a : A) → Agrees (f a) (g a))
      → SameOutcome
          (elim x [ ok (a, s') ↦ f a s' | err e ↦ err e ])
          (elim y [ ok (a, t') ↦ g a t' | err e ↦ err e ])
  bind_outcomes (ok (a, s)) (ok (b, t)) f g (e, (ys, hs, ht)) k =
      subst (λ c. SameOutcome (f a s) (g c t)) e (run_agreed (k a) s t ys hs ht)
  bind_outcomes (ok (a, s)) (err e) f g h k = absurd h
  bind_outcomes (err e) (ok (b, t)) f g h k = absurd h
  bind_outcomes (err e) (err e') f g h k = h

  pub Agrees-bind :
      {E A B : Type 0} {m : Parser S E A} {n : Parser T E A} {f : A → Parser S E B}
      {g : A → Parser T E B}
      → Agrees m n
      → ((a : A) → Agrees (f a) (g a))
      → Agrees (m >>= f) (n >>= g)
  Agrees-bind {m} {n} {f} {g} h k =
      agreed (λ s t xs hs ht. bind_outcomes (m s) (n t) f g (run_agreed h s t xs hs ht) k)

  pub Agrees-return : {E A : Type 0} (a : A) → Agrees {E = E} (return a) (return a)
  Agrees-return a = agreed (λ s t xs hs ht. (refl, (xs, hs, ht)))

  pub Agrees-throw : {E A : Type 0} (e : E) → Agrees {A = A} (throw e) (throw e)
  Agrees-throw e = agreed (λ s t xs hs ht. refl)

  pub Agrees-guard : {E : Type 0} (b : Bool) (e : E) → Agrees (guard b e) (guard b e)
  Agrees-guard true e = agreed (λ s t xs hs ht. (refl, (xs, hs, ht)))
  Agrees-guard false e = agreed (λ s t xs hs ht. refl)

  both_whole :
      {E : Type 0} (n : ℕ) (d d' : Bytes) (s : S) (t : T) (e : E)
      → length d ≡ n
      → d ≡ d'
      → ((ys : Bytes) × r.Holds s ys × q.Holds t ys)
      → SameOutcome (exactly n d s e) (exactly n d' t e)
  both_whole n d d' s t e len same held =
      subst (λ x. SameOutcome (exactly n d s e) (exactly n x t e)) same (rw full (refl, held))
    where
      full : (length d == n) ≡ true
      full = ground arith

  both_partial :
      {E : Type 0} (n : ℕ) (d d' : Bytes) (s : S) (t : T) (e : E)
      → length d < n
      → d ≡ d'
      → SameOutcome (exactly n d s e) (exactly n d' t e)
  both_partial n d d' s t e lt same =
      subst (λ x. SameOutcome (exactly n d s e) (exactly n x t e)) same (rw short refl)
    where
      short : (length d == n) ≡ false
      short = ground arith

  pub Agrees-if :
      {E A : Type 0} {m m' : Parser S E A} {n n' : Parser T E A} (b : Bool)
      → Agrees m n
      → Agrees m' n'
      → Agrees (if b then m else m') (if b then n else n')
  Agrees-if true h h' = h
  Agrees-if false h h' = h'

  read_outcomes :
      {E : Type 0} (n : ℕ) (e : E) (s : S) (t : T) (xs : Bytes)
      → r.Holds s xs
      → q.Holds t xs
      → SameOutcome
          (exactly n (r.read n s).0 (r.read n s).1 e)
          (exactly n (q.read n t).0 (q.read n t).1 e)
  read_outcomes n e s t xs hs ht = elim (Bool-cases (leb n (length xs))) [
    | inl h ↦
        let (got, left) = r.read_enough n s xs hs (ground arith) in
        let (got', left') = q.read_enough n t xs ht (ground arith) in
        both_whole n _ _ _ _ e (rw got (omega (arith, length-take n xs, leb→le n (length xs) h)))
          (got ∙ sym got') (drop n xs, left, left')
    | inr h ↦
        let got = r.read_short n s xs hs (ground arith) in
        both_partial n _ _ _ _ e (rw got (ground arith))
          (got ∙ sym (q.read_short n t xs ht (ground arith)))
  ]

  pub Agrees-read_exact :
      {E : Type 0} (n : ℕ) (e : E) → Agrees (read_exact r n e) (read_exact q n e)
  unfolding read_exact
  Agrees-read_exact n e = agreed (λ s t xs hs ht. read_outcomes n e s t xs hs ht)
