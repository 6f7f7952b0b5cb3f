-- ===== src/Config/Render/Numbers.antt =====
-- Printed integers under the JSON parser (src/common/config.cpp).
use cppvless.Common.{
  ℕ, zero, suc, ◌+◌, ◌/◌, ◌%◌, ◌^◌, ◌<◌, ◌≤◌, ◌≡◌, refl, ap, ◌∙◌, Bool, true, false, not, ◌&&◌, [],
  ◌∷◌, ◌++◌, arith, Bytes, length, ltb, ltb-false, ◌==◌, Bool-cases, inl, inr, ok,
}
use cppvless.Common.Int.{ℤ, pos, negsuc}
use cppvless.Config.Json
use cppvless.Config.Json.Number.{
  starts_digit, starts_digit-decimal, ends_number, decimal_loop, decimal_loop-append, decimal,
  decimal_int, as_int-decimal_int, magnitude,
}
use cppvless.Config.Json.Text.{skip_ws}
use cppvless.Config.Json.Parser.{
  is_number_char, skip_number, skip_minus, parse_scalar, parse_number, parse_value,
}

-- Neither `strtod` nor the parser reads on.
abbrev pub stops : Bytes → Bool
stops [] = true
stops (c ∷ cs) = not (is_number_char c) && ends_number (c ∷ cs)

stops-ends_number : (rest : Bytes) → stops rest ≡ true → ends_number rest ≡ true
stops-ends_number [] h = refl
stops-ends_number (c ∷ cs) h = ground arith

skip_number-stops : (rest : Bytes) → stops rest ≡ true → skip_number rest ≡ rest
unfolding skip_number
skip_number-stops [] h = refl
skip_number-stops (c ∷ cs) h = ground arith

skip_number_digit :
    (n : ℕ) (acc : Bytes) → n < 10 → skip_number ((b'0' + n) ∷ acc) ≡ skip_number acc
unfolding skip_number
skip_number_digit n acc h = ground arith

skip_number-decimal_loop :
    (f n : ℕ) (acc : Bytes) → n < f → skip_number (decimal_loop f n acc) ≡ skip_number acc
unfolding decimal_loop
skip_number-decimal_loop zero n acc h = absurd (omega arith)
skip_number-decimal_loop (suc f) n acc h = elim (Bool-cases (ltb n 10)) [
  | inl e ↦ rw e (skip_number_digit (n % 10) acc (omega arith))
  | inr e ↦ rw e (
      let b : 10 ≤ n = ltb-false n 10 e in
      skip_number-decimal_loop f (n / 10) ((b'0' + n % 10) ∷ acc) (omega arith)
      ∙ skip_number_digit (n % 10) acc (omega arith))
]

length-decimal_loop : (f n : ℕ) (acc : Bytes) → n < f → length acc < length (decimal_loop f n acc)
unfolding decimal_loop
length-decimal_loop zero n acc h = absurd (omega arith)
length-decimal_loop (suc f) n acc h = elim (Bool-cases (ltb n 10)) [
  | inl e ↦ rw e (omega arith)
  | inr e ↦ rw e (
      let b : 10 ≤ n = ltb-false n 10 e in
      omega (arith, length-decimal_loop f (n / 10) ((b'0' + n % 10) ∷ acc) (omega arith)))
]

skip_number-decimal :
    (n : ℕ) (rest : Bytes) → stops rest ≡ true → skip_number (decimal n ++ rest) ≡ rest
unfolding decimal
skip_number-decimal n rest s =
    rw (decimal_loop-append (suc n) n [] rest)
      (skip_number-decimal_loop (suc n) n rest (omega arith) ∙ skip_number-stops rest s)

length-decimal : (n : ℕ) (rest : Bytes) → length rest < length (decimal n ++ rest)
unfolding decimal
length-decimal n rest =
    rw (decimal_loop-append (suc n) n [] rest) (length-decimal_loop (suc n) n rest (omega arith))

skip_minus_digit : (text : Bytes) → starts_digit text ≡ true → skip_minus text ≡ text
skip_minus_digit [] h = refl
skip_minus_digit (c ∷ cs) h = ground arith

pub skip_ws_digit : (text : Bytes) → starts_digit text ≡ true → skip_ws text ≡ text
unfolding skip_ws
skip_ws_digit [] h = refl
skip_ws_digit (c ∷ cs) h = ground arith

parse_value_digit :
    (f : ℕ) (other : Bytes → ℤ) (text : Bytes)
    → starts_digit text ≡ true
    → parse_value (suc f) other text ≡ parse_number other text
unfolding parse_value parse_scalar
parse_value_digit f other [] h = cc
parse_value_digit f other (c ∷ cs) h = ground arith

skip_minus-decimal_int :
    (z : ℤ) (rest : Bytes)
    → stops rest ≡ true
    → skip_number (skip_minus (decimal_int z ++ rest)) ≡ rest
unfolding decimal_int
skip_minus-decimal_int (pos n) rest s =
    ap skip_number (skip_minus_digit (decimal n ++ rest) (starts_digit-decimal n rest))
    ∙ skip_number-decimal n rest s
skip_minus-decimal_int (negsuc n) rest s = skip_number-decimal (suc n) rest s

length-decimal_int : (z : ℤ) (rest : Bytes) → length rest < length (decimal_int z ++ rest)
unfolding decimal_int
length-decimal_int (pos n) rest = length-decimal n rest
length-decimal_int (negsuc n) rest = omega (arith, length-decimal (suc n) rest)

lt→==_false : (a b : ℕ) → a < b → (a == b) ≡ false
lt→==_false a b h = ground arith

pub skip_ws-decimal_int :
    (z : ℤ) (rest : Bytes) → skip_ws (decimal_int z ++ rest) ≡ decimal_int z ++ rest
unfolding decimal_int
skip_ws-decimal_int (pos n) rest = skip_ws_digit (decimal n ++ rest) (starts_digit-decimal n rest)
skip_ws-decimal_int (negsuc n) rest = unfold skip_ws in refl

parse_number-decimal_int :
    (other : Bytes → ℤ) (z : ℤ) (rest : Bytes)
    → magnitude z ≤ 2 ^ 53
    → stops rest ≡ true
    → parse_number other (decimal_int z ++ rest) ≡ ok (Json.number z, rest)
unfolding parse_number
parse_number-decimal_int other z rest b s = rw (skip_minus-decimal_int z rest s) (
    rw (lt→==_false _ _ (length-decimal_int z rest))
      (rw (as_int-decimal_int other z rest b (stops-ends_number rest s))))

parse_value-parse_number :
    (f : ℕ) (other : Bytes → ℤ) (z : ℤ) (rest : Bytes)
    → parse_value (suc f) other (decimal_int z ++ rest) ≡ parse_number other (decimal_int z ++ rest)
unfolding decimal_int
parse_value-parse_number f other (pos n) rest =
    parse_value_digit f other (decimal n ++ rest) (starts_digit-decimal n rest)
parse_value-parse_number f other (negsuc n) rest = unfold parse_value parse_scalar in refl

-- A printed integer is read back.
pub parse_value-decimal_int :
    (f : ℕ) (other : Bytes → ℤ) (z : ℤ) (rest : Bytes)
    → magnitude z ≤ 2 ^ 53
    → stops rest ≡ true
    → parse_value (suc f) other (decimal_int z ++ rest) ≡ ok (Json.number z, rest)
parse_value-decimal_int f other z rest b s =
    parse_value-parse_number f other z rest ∙ parse_number-decimal_int other z rest b s
