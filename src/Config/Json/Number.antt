-- ===== src/Config/Json/Number.antt =====
-- The decimal text of an `int`, and how `strtod` with a cast to `long long` reads an integer.
use cppvless.Common.{
  ℕ, zero, suc, ◌+◌, ◌-◌, ◌*◌, ◌/◌, ◌%◌, ◌^◌, ◌<◌, ◌≤◌, ◌≡◌, refl, ap, ◌∙◌, Bool, true, false, not,
  ◌&&◌, [], ◌∷◌, ◌++◌, arith, Bytes, ltb, leb, ◌==◌, if◌then◌else◌, ltb→lt, ltb-false, le→leb, inl,
  inr, Bool-cases,
}
use cppvless.Common.Int.{ℤ, pos, negsuc}

abbrev pub is_digit : ℕ → Bool
is_digit c = leb b'0' c && leb c b'9'

-- `ostream << n`: digits are put in front of each other while the number has more than one.
unfoldable pub decimal_loop : ℕ → ℕ → Bytes → Bytes
decimal_loop zero n acc = acc
decimal_loop (suc f) n acc =
    let rest = decimal_loop f (n / 10) ((b'0' + n % 10) ∷ acc) in
    if ltb n 10 then (b'0' + n % 10) ∷ acc else rest

unfoldable pub decimal : ℕ → Bytes
unfolding decimal_loop
decimal n = decimal_loop (suc n) n []

unfoldable pub decimal_int : ℤ → Bytes
unfolding decimal
decimal_int (pos n) = decimal n
decimal_int (negsuc n) = b'-' ∷ decimal (suc n)

-- The value of the digits in front, and what follows them.
unfoldable pub read_digits : Bytes → ℕ → ℕ × Bytes
read_digits [] n = (n, [])
read_digits (c ∷ cs) n =
    let more = read_digits cs (n * 10 + (c - b'0')) in if is_digit c then more else (n, c ∷ cs)

abbrev pub starts_digit : Bytes → Bool
starts_digit [] = false
starts_digit (c ∷ cs) = is_digit c

-- No fraction, exponent or hexadecimal prefix follows.
abbrev pub ends_number : Bytes → Bool
ends_number [] = true
ends_number (c ∷ cs) =
    not (is_digit c)
    && (not (c == b'.')
        && (not (c == b'e') && (not (c == b'E') && (not (c == b'x') && not (c == b'X')))))

abbrev pub negate : ℕ → ℤ
negate zero = pos 0
negate (suc n) = negsuc n

-- Integers up to 2 ^ 53 are exact in a `double`. All other texts are read by the argument.
abbrev pub exact : (Bytes → ℤ) → Bytes → (ℕ → ℤ) → Bytes → ℤ
exact other text sign digits =
    let (n, rest) = read_digits digits 0 in
    if starts_digit digits && (ends_number rest && leb n (2 ^ 53)) then sign n else other text

unfoldable pub as_int : (Bytes → ℤ) → Bytes → ℤ
unfolding read_digits
as_int other [] = exact other [] pos []
as_int other (c ∷ cs) =
    if c == b'-' then exact other (c ∷ cs) negate cs else exact other (c ∷ cs) pos (c ∷ cs)

digit_step :
    (n : ℕ) (acc : Bytes) (v : ℕ)
    → n < 10
    → read_digits ((b'0' + n) ∷ acc) v ≡ read_digits acc (v * 10 + n)
unfolding read_digits
digit_step n acc v h = ground arith

pub read_digits-decimal_loop :
    (f n : ℕ) (acc : Bytes) → n < f → read_digits (decimal_loop f n acc) 0 ≡ read_digits acc n
unfolding decimal_loop
read_digits-decimal_loop zero n acc h = absurd (omega arith)
read_digits-decimal_loop (suc f) n acc h = elim (Bool-cases (ltb n 10)) [
  | inl e ↦ rw e (
      digit_step (n % 10) acc 0 (omega arith)
      ∙ ap (λ v. read_digits acc v) (let b : n < 10 = ltb→lt n 10 e in omega arith))
  | inr e ↦ rw e (
      let b : 10 ≤ n = ltb-false n 10 e in
      read_digits-decimal_loop f (n / 10) ((b'0' + n % 10) ∷ acc) (omega arith)
      ∙ digit_step (n % 10) acc (n / 10) (omega arith)
      ∙ ap (λ v. read_digits acc v) (omega arith))
]

starts_digit-decimal_loop :
    (f n : ℕ) (acc : Bytes) → n < f → starts_digit (decimal_loop f n acc) ≡ true
unfolding decimal_loop
starts_digit-decimal_loop zero n acc h = absurd (omega arith)
starts_digit-decimal_loop (suc f) n acc h = elim (Bool-cases (ltb n 10)) [
  | inl e ↦ rw e (ground arith)
  | inr e ↦ rw e (
      let b : 10 ≤ n = ltb-false n 10 e in
      starts_digit-decimal_loop f (n / 10) ((b'0' + n % 10) ∷ acc) (omega arith))
]

pub decimal_loop-append :
    (f n : ℕ) (acc rest : Bytes) → decimal_loop f n acc ++ rest ≡ decimal_loop f n (acc ++ rest)
unfolding decimal_loop
decimal_loop-append zero n acc rest = refl
decimal_loop-append (suc f) n acc rest = elim (Bool-cases (ltb n 10)) [
  | inl e ↦ rw e
  | inr e ↦ rw e (decimal_loop-append f (n / 10) ((b'0' + n % 10) ∷ acc) rest)
]

read_digits_end : (rest : Bytes) (n : ℕ) → ends_number rest ≡ true → read_digits rest n ≡ (n, rest)
unfolding read_digits
read_digits_end [] n h = refl
read_digits_end (c ∷ cs) n h = ground arith

abbrev pub magnitude : ℤ → ℕ
magnitude (pos n) = n
magnitude (negsuc n) = suc n

exact-decimal :
    (other : Bytes → ℤ) (text : Bytes) (sign : ℕ → ℤ) (n : ℕ) (rest : Bytes)
    → n ≤ 2 ^ 53
    → ends_number rest ≡ true
    → exact other text sign (decimal n ++ rest) ≡ sign n
unfolding decimal
exact-decimal other text sign n rest b e = rw (decimal_loop-append (suc n) n [] rest) (
    rw (starts_digit-decimal_loop (suc n) n rest (omega arith)) (
      rw (read_digits-decimal_loop (suc n) n rest (omega arith))
        (rw (read_digits_end rest n e, e, le→leb n (2 ^ 53) b))))

no_minus :
    (other : Bytes → ℤ) (text : Bytes)
    → starts_digit text ≡ true
    → as_int other text ≡ exact other text pos text
unfolding as_int
no_minus other [] h = refl
no_minus other (c ∷ cs) h = ground arith

pub starts_digit-decimal : (n : ℕ) (rest : Bytes) → starts_digit (decimal n ++ rest) ≡ true
unfolding decimal
starts_digit-decimal n rest =
    rw (decimal_loop-append (suc n) n [] rest)
      (starts_digit-decimal_loop (suc n) n rest (omega arith))

-- An integer is read back from its text.
pub as_int-decimal_int :
    (other : Bytes → ℤ) (z : ℤ) (rest : Bytes)
    → magnitude z ≤ 2 ^ 53
    → ends_number rest ≡ true
    → as_int other (decimal_int z ++ rest) ≡ z
unfolding decimal_int
as_int-decimal_int other (pos n) rest b e =
    no_minus other (decimal n ++ rest) (starts_digit-decimal n rest)
    ∙ exact-decimal other (decimal n ++ rest) pos n rest b e
as_int-decimal_int other (negsuc n) rest b e =
    unfold as_int in exact-decimal other (b'-' ∷ decimal (suc n) ++ rest) negate (suc n) rest b e
