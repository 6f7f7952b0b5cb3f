-- ===== src/Config/Json/Termination.antt =====
-- The JSON parser ends on every text (src/common/config.cpp).
use cppvless.Common.{
  ℕ, zero, suc, ◌*◌, ◌<◌, ◌≤◌, ◌≡◌, ◌≢◌, refl, Bool, true, false, [], ◌∷◌, ◌++◌, arith, Bytes,
  length, length-drop, take, equal, Bool-cases, inl, inr, ltb, ◌==◌, if◌then◌else◌, Option, none,
  some, Result, ok, err, ◌>>=◌, codes, bit_or,
}
use cppvless.Common.Int.{ℤ}
use cppvless.Config.Json.{Json}
use cppvless.Config.Json.Text.{
  JsonError, invalid, stuck, skip_ws, consume, parse_literal, hex_val, unicode_loop, unicode,
  escaped, string_loop, parse_string, backslash, quote,
}
use cppvless.Config.Json.Parser.{
  skip_minus, skip_number, parse_number, separator, parse_key, open_array, open_object,
  parse_scalar, parse_value, parse_items, parse_fields, finish, parse,
}

-- A part of the parser given `n` characters leaves fewer, or reports an error of the source.
data Advances {A : Type 0} (n : ℕ) : Result JsonError (A × Bytes) → Type 0 where
  moved : {a : A} {rest : Bytes} → length rest < n → Advances n (ok (a, rest))
  refused : Advances n (err invalid)

Advances-ne-stuck :
    {A : Type 0} {n : ℕ} {r : Result JsonError (A × Bytes)} → Advances n r → r ≢ err stuck
Advances-ne-stuck (moved h) = cc
Advances-ne-stuck refused = cc

Advances-weaken :
    {A : Type 0} {m n : ℕ} {r : Result JsonError (A × Bytes)} → m ≤ n → Advances m r → Advances n r
Advances-weaken h (moved g) = moved (omega arith)
Advances-weaken h refused = refused

Advances-bind :
    {A B : Type 0} {m n : ℕ} {r : Result JsonError (A × Bytes)}
    (k : A × Bytes → Result JsonError (B × Bytes))
    → Advances m r
    → ((a : A) (rest : Bytes) → length rest < m → Advances n (k (a, rest)))
    → Advances n (r >>= k)
Advances-bind k (moved {a} {rest} h) g = g a rest h
Advances-bind k refused g = refused

Advances-if :
    {A : Type 0} {n : ℕ} (b : Bool) {x y : Result JsonError (A × Bytes)}
    → Advances n x
    → Advances n y
    → Advances n (if b then x else y)
Advances-if true h k = h
Advances-if false h k = k

Advances-done :
    {A : Type 0} {n : ℕ} (done : Bool) (x y : Result JsonError (A × Bytes))
    → Advances n x
    → Advances n y
    → Advances n (elim done [ true ↦ x | false ↦ y ])
Advances-done true x y h k = h
Advances-done false x y h k = k

-- An optional rest, shorter than `m`, and a continuation on it.
Advances-consume :
    {A : Type 0} {n : ℕ} (m : ℕ) (o : Option Bytes) (x : Result JsonError (A × Bytes))
    (k : Bytes → Result JsonError (A × Bytes))
    → ((rest : Bytes) → o ≡ some rest → length rest < m)
    → Advances n x
    → ((rest : Bytes) → length rest < m → Advances n (k rest))
    → Advances n (elim o [ none ↦ x | some rest ↦ k rest ])
Advances-consume m none x k h hx hk = hx
Advances-consume m (some rest) x k h hx hk = hk rest (h rest refl)

length-skip_ws : (text : Bytes) → length (skip_ws text) ≤ length text
unfolding skip_ws
length-skip_ws [] = omega arith
length-skip_ws (c ∷ cs) = ground (arith, length-skip_ws cs)

length-skip_number : (text : Bytes) → length (skip_number text) ≤ length text
unfolding skip_number
length-skip_number [] = omega arith
length-skip_number (c ∷ cs) = ground (arith, length-skip_number cs)

length-skip_minus : (text : Bytes) → length (skip_minus text) ≤ length text
length-skip_minus [] = omega arith
length-skip_minus (c ∷ cs) = ground arith

length-consume :
    (c : ℕ) (text : Bytes) (rest : Bytes) → consume c text ≡ some rest → length rest < length text
unfolding consume
length-consume c [] rest h = cc
length-consume c (d ∷ ds) rest h = ground arith

length-consume_ws :
    (c : ℕ) (text rest : Bytes) → consume c (skip_ws text) ≡ some rest → length rest < length text
length-consume_ws c text rest e =
    omega (arith, length-skip_ws text, length-consume c (skip_ws text) rest e)

unicode_loop-Advances :
    (k code : ℕ) (text : Bytes) → Advances (suc (length text)) (unicode_loop k code text)
unfolding unicode_loop
unicode_loop-Advances zero code text = moved (omega arith)
unicode_loop-Advances (suc k) code [] = refused
unicode_loop-Advances (suc k) code (h ∷ hs) =
    digit (hex_val h) (λ v. unicode_loop-Advances k (bit_or (code * 16) v) hs)
  where
    digit :
        (o : Option ℕ)
        → ((v : ℕ) → Advances (suc (length hs)) (unicode_loop k (bit_or (code * 16) v) hs))
        → Advances
            (suc (suc (length hs)))
            (elim o [ none ↦ err invalid | some v ↦ unicode_loop k (bit_or (code * 16) v) hs ])
    digit none ih = refused
    digit (some v) ih = Advances-weaken (omega arith) (ih v)

unicode-Advances : (text : Bytes) → Advances (suc (length text)) (unicode text)
unfolding unicode
unicode-Advances text =
    Advances-if (ltb (length text) 4) refused
      (Advances-bind _ (unicode_loop-Advances 4 0 text) (λ code rest h. moved h))

escaped-Advances : (text : Bytes) → Advances (suc (length text)) (escaped text)
escaped-Advances [] = unfold escaped in refused
escaped-Advances (e ∷ rest) =
    unfold escaped in
    simple quote _ (
      simple backslash _ (
        simple b'/' _ (
          simple b'n' _ (
            simple b't' _ (
              simple b'r' _ (
                simple b'b' _ (
                  simple b'f' _ (
                    Advances-if (e == b'u') (Advances-weaken (omega arith) (unicode-Advances rest))
                      refused))))))))
  where
    simple :
        (c : ℕ) (out : Bytes) {y : Result JsonError (Bytes × Bytes)}
        → Advances (suc (suc (length rest))) y
        → Advances (suc (suc (length rest))) (if e == c then ok (out, rest) else y)
    simple c out h = Advances-if (e == c) (moved (omega arith)) h

string_loop-Advances :
    (f : ℕ) (out text : Bytes)
    → length text < f
    → Advances (suc (length text)) (string_loop f out text)
unfolding string_loop
string_loop-Advances zero out text h = absurd (omega arith)
string_loop-Advances (suc f) out [] h = refused
string_loop-Advances (suc f) out (c ∷ cs) h = Advances-if (c == quote) (moved (omega arith)) (
    Advances-if (c == backslash)
      (Advances-bind _ (escaped-Advances cs) (λ a rest g.
        Advances-weaken (omega arith) (string_loop-Advances f (out ++ a) rest (omega arith))))
      (Advances-weaken (omega arith) (string_loop-Advances f (out ++ c ∷ []) cs (omega arith))))

parse_string-Advances : (text : Bytes) → Advances (length text) (parse_string text)
unfolding parse_string
parse_string-Advances text =
    Advances-consume (length text) (consume quote text) _ _ (length-consume quote text) refused
      (λ rest h. Advances-weaken h (string_loop-Advances (suc (length rest)) [] rest (omega arith)))

parse_key-Advances : (text : Bytes) → Advances (length text) (parse_key text)
unfolding parse_key
parse_key-Advances text =
    Advances-bind _ (Advances-weaken (length-skip_ws text) (parse_string-Advances (skip_ws text)))
      (λ key rest h.
        Advances-consume (length rest) (consume b':' (skip_ws rest)) _ _
          (length-consume_ws b':' rest) refused
          (λ after g. moved (omega (arith, length-skip_ws after))))

separator-Advances : (close : ℕ) (text : Bytes) → Advances (length text) (separator close text)
unfolding separator
separator-Advances close text =
    Advances-consume (length text) (consume close (skip_ws text)) _ _ (length-consume_ws close text)
      (Advances-consume (length text) (consume b',' (skip_ws text)) _ _
        (length-consume_ws b',' text) refused (λ rest h. moved h))
      (λ rest h. moved h)

-- Dropping a literal that is there drops a character at least.
parse_literal-Advances :
    (lit : Bytes) (v : Json) (text : Bytes)
    → 0 < length lit
    → Advances (length text) (parse_literal lit v text)
unfolding parse_literal equal
parse_literal-Advances (l ∷ lit) v [] h = refused
parse_literal-Advances (l ∷ lit) v (c ∷ cs) h =
    Advances-if (equal (take (length (l ∷ lit)) (c ∷ cs)) (l ∷ lit))
      (moved (omega (arith, length-drop (length lit) cs))) refused
parse_literal-Advances [] v text h = absurd (omega arith)

parse_number-Advances :
    (other : Bytes → ℤ) (text : Bytes) → Advances (length text) (parse_number other text)
unfolding parse_number
parse_number-Advances other text =
    elim (Bool-cases (length (skip_number (skip_minus text)) == length text)) [
      | inl e ↦ rw e refused
      | inr e ↦ rw e (moved (shorter e))
    ]
  where
    shorter :
        (length (skip_number (skip_minus text)) == length text) ≡ false
        → length (skip_number (skip_minus text)) < length text
    shorter e = ground (arith, length-skip_number (skip_minus text), length-skip_minus text)

parse_scalar-Advances :
    (other : Bytes → ℤ) (text : Bytes) → Advances (length text) (parse_scalar other text)
unfolding parse_scalar
parse_scalar-Advances other [] = refused
parse_scalar-Advances other (c ∷ cs) =
    Advances-if (c == quote)
      (Advances-bind _ (parse_string-Advances (c ∷ cs)) (λ s rest h. moved h))
      (Advances-if (c == b't') (parse_literal-Advances (codes "true") _ (c ∷ cs) (omega arith)) (
        Advances-if (c == b'f') (parse_literal-Advances (codes "false") _ (c ∷ cs) (omega arith)) (
          Advances-if (c == b'n') (parse_literal-Advances (codes "null") _ (c ∷ cs) (omega arith))
            (parse_number-Advances other (c ∷ cs)))))

-- One induction on the fuel, twice the length of the text and one for the members of a list.
mutual
  unfolding parse_value open_array open_object

  parse_value-Advances :
      (f : ℕ) (other : Bytes → ℤ) (text : Bytes)
      → 2 * length text < f
      → Advances (length text) (parse_value f other text)
  parse_value-Advances zero other text h = absurd (omega arith)
  parse_value-Advances (suc f) other [] h = refused
  parse_value-Advances (suc f) other (c ∷ cs) h =
      Advances-if (c == b'{')
        (Advances-consume (length cs) (consume b'}' (skip_ws cs)) _ _ (length-consume_ws b'}' cs)
          (Advances-bind _
            (parse_fields-Advances f other (skip_ws cs) (omega (arith, length-skip_ws cs)))
            (λ fs rest g. moved (omega (arith, length-skip_ws cs))))
          (λ rest g. moved (omega arith)))
        (Advances-if (c == b'[')
          (Advances-consume (length cs) (consume b']' (skip_ws cs)) _ _ (length-consume_ws b']' cs)
            (Advances-bind _
              (parse_items-Advances f other (skip_ws cs) (omega (arith, length-skip_ws cs)))
              (λ fs rest g. moved (omega (arith, length-skip_ws cs))))
            (λ rest g. moved (omega arith)))
          (parse_scalar-Advances other (c ∷ cs)))

  parse_items-Advances :
      (f : ℕ) (other : Bytes → ℤ) (text : Bytes)
      → suc (2 * length text) < f
      → Advances (length text) (parse_items f other text)
  parse_items-Advances zero other text h = absurd (omega arith)
  parse_items-Advances (suc f) other text h =
      Advances-bind _
        (Advances-weaken (length-skip_ws text)
          (parse_value-Advances f other (skip_ws text) (omega (arith, length-skip_ws text))))
        (λ v rest g. Advances-bind _ (separator-Advances b']' rest) λ done after k.
          Advances-done done _ _ (moved (omega arith)) (
            Advances-bind _ (parse_items-Advances f other after (omega arith))
              (λ vs end j. moved (omega arith))))

  parse_fields-Advances :
      (f : ℕ) (other : Bytes → ℤ) (text : Bytes)
      → suc (2 * length text) < f
      → Advances (length text) (parse_fields f other text)
  parse_fields-Advances zero other text h = absurd (omega arith)
  parse_fields-Advances (suc f) other text h =
      Advances-bind _ (parse_key-Advances text) λ key start s.
        Advances-bind _ (parse_value-Advances f other start (omega arith)) λ v rest g.
          Advances-bind _ (separator-Advances b'}' rest) λ done after k.
            Advances-done done _ _ (moved (omega arith)) (
              Advances-bind _ (parse_fields-Advances f other after (omega arith))
                (λ vs end j. moved (omega arith)))

finish-ne-stuck : (v : Json) (rest : Bytes) → finish v rest ≢ err stuck
unfolding finish
finish-ne-stuck v [] = cc
finish-ne-stuck v (c ∷ cs) = cc

bind-ne-stuck :
    {A B : Type 0} (r : Result JsonError A) (k : A → Result JsonError B)
    → r ≢ err stuck
    → ((a : A) → k a ≢ err stuck)
    → (r >>= k) ≢ err stuck
bind-ne-stuck (ok a) k h g = g a
bind-ne-stuck (err invalid) k h g = cc
bind-ne-stuck (err stuck) k h g = absurd (h refl)

-- The parser answers every text with a value or an error of its own: its fuel is enough.
pub parse-ne-stuck : (other : Bytes → ℤ) (text : Bytes) → parse other text ≢ err stuck
unfolding parse
parse-ne-stuck other text =
    bind-ne-stuck (parse_value (suc (2 * length (skip_ws text))) other (skip_ws text)) _
      (Advances-ne-stuck
        (parse_value-Advances (suc (2 * length (skip_ws text))) other (skip_ws text) (omega arith)))
      (λ (v, rest). finish-ne-stuck v (skip_ws rest))
