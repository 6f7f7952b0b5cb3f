-- ===== src/Coro/Ensures.antt =====
-- What holds of whatever a parser returns, on any stream at all.
use cppvless.Common.{
  ℕ, ◌≡◌, refl, subst, Bool, true, false, arith, Bytes, length, if◌then◌else◌, Result, ok, err,
}
use cppvless.Coro.ByteReader.{ByteReader}
use cppvless.Coro.Parsing.{Parser, ◌>>=◌, ◌>>◌, return, throw, guard, exactly, read_exact}

module _ {S E : Type 0} where
  pub data Ensures {A : Type 0} (P : A → Type 0) (m : Parser S E A) : Type 0 where
    ensured : ((s : S) (a : A) (s' : S) → m s ≡ ok (a, s') → P a) → Ensures P m

  pub run_ensured :
      {A : Type 0} {P : A → Type 0} {m : Parser S E A}
      → Ensures P m
      → (s : S) (a : A) (s' : S) → m s ≡ ok (a, s')
      → P a
  run_ensured (ensured h) = h

  bind_result :
      {A B : Type 0} (P : A → Type 0) (Q : B → Type 0) (f : A → Parser S E B) (x : Result E (A × S))
      {b : B} {s' : S}
      → ((a : A) (t : S) → x ≡ ok (a, t) → P a)
      → ((a : A) → P a → Ensures Q (f a))
      → elim x [ ok (a, t) ↦ f a t | err e ↦ err e ] ≡ ok (b, s')
      → Q b
  bind_result P Q f (ok (a, t)) p q h = run_ensured (q a (p a t refl)) t _ _ h
  bind_result P Q f (err e) p q h = cc

  pub Ensures-bind :
      {A B : Type 0} (P : A → Type 0) {Q : B → Type 0} {m : Parser S E A} {f : A → Parser S E B}
      → Ensures P m
      → ((a : A) → P a → Ensures Q (f a))
      → Ensures Q (m >>= f)
  Ensures-bind P {Q} {m} {f} p q =
      ensured (λ s b s' h. bind_result P Q f (m s) (λ a t e. run_ensured p s a t e) q h)

  pub Ensures-return : {A : Type 0} {P : A → Type 0} (a : A) → P a → Ensures P (return a)
  Ensures-return {P} a p = ensured (λ s b s' h. subst P (cc) p)

  pub Ensures-throw : {A : Type 0} {P : A → Type 0} (e : E) → Ensures P (throw e)
  Ensures-throw e = ensured (λ s a s' h. cc)

  pub Ensures-guarded :
      {A : Type 0} {P : A → Type 0} {k : Parser S E A} (b : Bool) (e : E)
      → (b ≡ true → Ensures P k)
      → Ensures P (guard b e >> k)
  Ensures-guarded true e h = ensured (λ s a s' g. run_ensured (h refl) s a s' g)
  Ensures-guarded false e h = ensured (λ s a s' g. cc)

  pub Ensures-if :
      {A : Type 0} {P : A → Type 0} {m n : Parser S E A} (b : Bool)
      → Ensures P m
      → Ensures P n
      → Ensures P (if b then m else n)
  Ensures-if true hm hn = hm
  Ensures-if false hm hn = hn

  pub Ensures-read_exact :
      (r : ByteReader S) (n : ℕ) (e : E) → Ensures (λ d. length d ≡ n) (read_exact r n e)
  unfolding read_exact
  Ensures-read_exact r n e = ensured (λ s d s' h. read (r.read n s).0 (r.read n s).1 h)
    where
      read :
          (d' : Bytes) (t : S) {d : Bytes} {s' : S} → exactly n d' t e ≡ ok (d, s') → length d ≡ n
      read d' t h = ground arith

  pub Ensures-weaken :
      {A : Type 0} (P : A → Type 0) {Q : A → Type 0} {m : Parser S E A}
      → Ensures P m
      → ((a : A) → P a → Q a)
      → Ensures Q m
  Ensures-weaken P p w = ensured (λ s a s' h. w a (run_ensured p s a s' h))
