-- ===== src/Config/Json/Parser.antt =====
-- `JsonParser` of src/common/config.cpp: numbers, arrays, objects and the document. Each call costs
-- a unit of fuel. `other` reads the numbers that are no plain integers (see Number).
use cppvless.Common.{
  ℕ, zero, suc, ◌*◌, Bool, true, false, ◌||◌, [], ◌∷◌, Bytes, length, ◌==◌, if◌then◌else◌, none,
  some, Result, ok, err, ◌>>=◌, codes,
}
use cppvless.Common.Int.{ℤ}
use cppvless.Config.Json.{
  Json, Items, Fields, null, bool, number, string, array, object, no_items, item, no_fields, field,
}
use cppvless.Config.Json.Number.{is_digit, as_int}
use cppvless.Config.Json.Text.{
  Parser, JsonError, invalid, stuck, skip_ws, consume, parse_literal, parse_string, quote,
}

abbrev pub is_number_char : ℕ → Bool
is_number_char c =
    is_digit c || (c == b'.' || (c == b'e' || (c == b'E' || (c == b'+' || c == b'-'))))

unfoldable pub skip_number : Bytes → Bytes
skip_number [] = []
skip_number (c ∷ cs) = let rest = skip_number cs in if is_number_char c then rest else c ∷ cs

abbrev pub skip_minus : Bytes → Bytes
skip_minus [] = []
skip_minus (c ∷ cs) = if c == b'-' then cs else c ∷ cs

unfoldable pub parse_number : (Bytes → ℤ) → Parser Json
unfolding skip_number as_int
parse_number other text =
    let rest = skip_number (skip_minus text) in
    if length rest == length text then err invalid else ok (number (as_int other text), rest)

-- What follows a member: the end, or a comma and the next one.
unfoldable pub separator : ℕ → Bytes → Result JsonError (Bool × Bytes)
unfolding consume skip_ws
separator close text = elim (consume close (skip_ws text)) [
  | some rest ↦ ok (true, rest)
  | none ↦ elim (consume b',' (skip_ws text)) [ some rest ↦ ok (false, rest) | none ↦ err invalid ]
]

-- A key, a colon, and the blanks around them.
unfoldable pub parse_key : Parser Bytes
unfolding skip_ws parse_string consume
parse_key text = parse_string (skip_ws text) >>= λ (key, rest). elim (consume b':' (skip_ws rest)) [
  | none ↦ err invalid
  | some after ↦ ok (key, skip_ws after)
]

-- `parseArray` and `parseObject` behind their bracket, over the loop that reads the members.
unfoldable pub open_array : Parser Items → Parser Json
unfolding consume skip_ws
open_array items text = elim (consume b']' (skip_ws text)) [
  | some rest ↦ ok (array no_items, rest)
  | none ↦ items (skip_ws text) >>= λ (vs, rest). ok (array vs, rest)
]

unfoldable pub open_object : Parser Fields → Parser Json
unfolding consume skip_ws
open_object fields text = elim (consume b'}' (skip_ws text)) [
  | some rest ↦ ok (object no_fields, rest)
  | none ↦ fields (skip_ws text) >>= λ (fs, rest). ok (object fs, rest)
]

-- The values that hold no others.
unfoldable pub parse_scalar : (Bytes → ℤ) → Parser Json
unfolding parse_string parse_literal parse_number
parse_scalar other [] = err invalid
parse_scalar other (c ∷ cs) =
    if c == quote
    then (parse_string (c ∷ cs) >>= λ (s, rest). ok (string s, rest))
    else if c == b't'
    then parse_literal (codes "true") (bool true) (c ∷ cs)
    else if c == b'f'
    then parse_literal (codes "false") (bool false) (c ∷ cs)
    else if c == b'n'
    then parse_literal (codes "null") null (c ∷ cs)
    else parse_number other (c ∷ cs)

unfoldable mutual
  pub parse_value : ℕ → (Bytes → ℤ) → Parser Json
  parse_value zero other text = err stuck
  parse_value (suc f) other [] = err invalid
  parse_value (suc f) other (c ∷ cs) =
      if c == b'{'
      then open_object (parse_fields f other) cs
      else if c == b'['
      then open_array (parse_items f other) cs
      else parse_scalar other (c ∷ cs)

  pub parse_items : ℕ → (Bytes → ℤ) → Parser Items
  parse_items zero other text = err stuck
  parse_items (suc f) other text = parse_value f other (skip_ws text) >>= λ (v, rest).
      separator b']' rest >>= λ (done, after). elim done [
        | true ↦ ok (item v no_items, after)
        | false ↦ parse_items f other after >>= λ (vs, end). ok (item v vs, end)
      ]

  pub parse_fields : ℕ → (Bytes → ℤ) → Parser Fields
  parse_fields zero other text = err stuck
  parse_fields (suc f) other text = parse_key text >>= λ (key, start).
      parse_value f other start >>= λ (v, rest). separator b'}' rest >>= λ (done, after).
      elim done [
        | true ↦ ok (field key v no_fields, after)
        | false ↦ parse_fields f other after >>= λ (fs, end). ok (field key v fs, end)
      ]

-- `parseDocument`: one value, with blanks at most around it.
unfoldable pub finish : Json → Bytes → Result JsonError Json
finish v [] = ok v
finish v (c ∷ cs) = err invalid

-- Two calls for a character are enough.
unfoldable pub parse : (Bytes → ℤ) → Bytes → Result JsonError Json
unfolding finish skip_ws
parse other text =
    parse_value (suc (2 * length (skip_ws text))) other (skip_ws text) >>= λ (v, rest).
    finish v (skip_ws rest)
