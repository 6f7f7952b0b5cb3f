-- ===== src/Coro/Parsing.antt =====
-- Coroutines that parse a buffered stream: a state-and-exception monad over the stream, and rules
-- for what such a parser does on the bytes that the stream holds.
use cppvless.Common.{
  ℕ, ◌<◌, ◌≡◌, refl, ◌∙◌, subst, Bool, true, false, [], ◌∷◌, ◌++◌, arith, Bytes, length,
  take-append, drop-append, length-append, ◌==◌, if◌then◌else◌, Result, ok, err,
}
use cppvless.Coro.ByteReader.{ByteReader}

-- `coro::Task<A>` over a stream of type `S`, which may throw an `E`.
abbrev pub Parser : Type 0 → Type 0 → Type 0 → Type 0
Parser S E A = S → Result E (A × S)

infixl 5 ◌>>=◌ ◌>>◌
abbrev pub ◌>>=◌ : {S E A B : Type 0} → Parser S E A → (A → Parser S E B) → Parser S E B
◌>>=◌ m f s = elim (m s) [ ok (a, s') ↦ f a s' | err e ↦ err e ]

abbrev pub ◌>>◌ : {S E A B : Type 0} → Parser S E A → Parser S E B → Parser S E B
m >> k = m >>= λ _. k

abbrev pub return : {S E A : Type 0} → A → Parser S E A
return a s = ok (a, s)

abbrev pub throw : {S E A : Type 0} → E → Parser S E A
throw e s = err e

-- `if (!ok) throw`
abbrev pub guard : {S E : Type 0} → Bool → E → Parser S E (Unit {0})
guard true e s = ok (tt, s)
guard false e s = err e

-- `if (data.size() != n) throw ...; co_return data;`
abbrev pub exactly : {S E : Type 0} → ℕ → Bytes → S → E → Result E (Bytes × S)
exactly n d s e = if length d == n then ok (d, s) else err e

whole :
    {S E : Type 0} (n : ℕ) (d : Bytes) (s : S) (e : E) → length d ≡ n → exactly n d s e ≡ ok (d, s)
whole n d s e h = ground arith

partial :
    {S E : Type 0} (n : ℕ) (d : Bytes) (s : S) (e : E) → length d < n → exactly n d s e ≡ err e
partial n d s e h = ground arith

module _ {S E : Type 0} (r : ByteReader S) where
  -- `auto data = co_await stream.read(n); if (data.size() != n) throw ...; co_return data;`
  unfoldable pub read_exact : ℕ → E → Parser S E Bytes
  read_exact n e s = let (d, s') = r.read n s in exactly n d s' e

  -- On the bytes `xs` the parser returns `a` and leaves `rest`.
  abbrev pub Yields : {A : Type 0} → Parser S E A → Bytes → A → Bytes → Type 0
  Yields m xs a rest = (s : S) → r.Holds s xs → (s' : S) × (m s ≡ ok (a, s')) × r.Holds s' rest

  abbrev pub Throws : {A : Type 0} → Parser S E A → Bytes → E → Type 0
  Throws m xs e = (s : S) → r.Holds s xs → m s ≡ err e

  pub Yields-bind :
      {A B : Type 0} (m : Parser S E A) (f : A → Parser S E B) {xs ys zs : Bytes} {a : A} {b : B}
      → Yields m xs a ys
      → Yields (f a) ys b zs
      → Yields (m >>= f) xs b zs
  Yields-bind m f hm hf s h =
      let (s', e, h') = hm s h in let (s'', e', h'') = hf s' h' in (s'', rw (e, ◌>>=◌) e', h'')

  pub Throws-bind :
      {A B : Type 0} (m : Parser S E A) (f : A → Parser S E B) {xs ys : Bytes} {a : A} {e : E}
      → Yields m xs a ys
      → Throws (f a) ys e
      → Throws (m >>= f) xs e
  Throws-bind m f hm hf s h = let (s', e, h') = hm s h in rw (e, ◌>>=◌) (hf s' h')

  pub Throws-first :
      {A B : Type 0} (m : Parser S E A) (f : A → Parser S E B) {xs : Bytes} {e : E}
      → Throws m xs e
      → Throws (m >>= f) xs e
  Throws-first m f hm s h = rw (hm s h, ◌>>=◌)

  pub Yields-return : {A : Type 0} (a : A) (xs : Bytes) → Yields (return a) xs a xs
  Yields-return a xs s h = (s, refl, h)

  pub Yields-guard : {b : Bool} (e : E) (xs : Bytes) → b ≡ true → Yields (guard b e) xs tt xs
  Yields-guard e xs h s k = (s, rw h, k)

  pub Throws-guard : {b : Bool} (e : E) (xs : Bytes) → b ≡ false → Throws (guard b e) xs e
  Throws-guard e xs h s k = rw h

  pub Yields-read_exact :
      (n : ℕ) (e : E) (front rest : Bytes)
      → length front ≡ n
      → Yields (read_exact n e) (front ++ rest) front rest
  unfolding read_exact
  Yields-read_exact n e front rest len s h =
      let (got, left) =
        r.read_enough n s (front ++ rest) h (omega (arith, length-append front rest)) in
      let got' = got ∙ take-append n front rest len in
      (
        (r.read n s).1,
        rw got' (whole n front _ e len),
        subst (r.Holds (r.read n s).1) (drop-append n front rest len) left,
      )

  -- Too few bytes: the parser throws.
  pub Throws-read_exact :
      (n : ℕ) (e : E) (xs : Bytes) → length xs < n → Throws (read_exact n e) xs e
  unfolding read_exact
  Throws-read_exact n e xs lt s h = rw (r.read_short n s xs h lt) (partial n xs _ e lt)

  -- The two rules that most steps of a parser use: the next bytes are there.
  pub Yields-read :
      {A : Type 0} (n : ℕ) (e : E) (front : Bytes) (k : Bytes → Parser S E A) {xs rest : Bytes}
      {a : A}
      → length front ≡ n
      → Yields (k front) xs a rest
      → Yields (read_exact n e >>= k) (front ++ xs) a rest
  Yields-read n e front k {xs} len h =
      Yields-bind (read_exact n e) k (Yields-read_exact n e front xs len) h

  pub Yields-byte :
      {A : Type 0} (e : E) (b : ℕ) (k : Bytes → Parser S E A) {xs rest : Bytes} {a : A}
      → Yields (k (b ∷ [])) xs a rest
      → Yields (read_exact 1 e >>= k) (b ∷ xs) a rest
  Yields-byte e b k h = Yields-read 1 e (b ∷ []) k refl h

  pub Yields-guarded :
      {A : Type 0} (b : Bool) (e : E) (k : Parser S E A) {xs rest : Bytes} {a : A}
      → b ≡ true
      → Yields k xs a rest
      → Yields (guard b e >> k) xs a rest
  Yields-guarded b e k {xs} h y = Yields-bind (guard b e) (λ _. k) (Yields-guard e xs h) y
