-- ===== src/Config/Json/Text.antt =====
-- `skipWs`, `consume`, `parseLiteral` and `parseString` of `JsonParser` (src/common/config.cpp).
-- The parser's state is the text from its position on.
use cppvless.Common.{
  ℕ, zero, suc, ◌+◌, ◌-◌, ◌*◌, ◌/◌, Bool, ◌&&◌, ◌||◌, [], ◌∷◌, ◌++◌, Bytes, length, drop, take,
  equal, ltb, leb, ◌==◌, if◌then◌else◌, Option, none, some, Result, ok, err, ◌>>=◌, bit_and, bit_or,
}
use cppvless.Config.Json.{Json}

-- `invalid` is a null pointer; `stuck` means that the fuel ran out, which the program cannot.
pub data JsonError : Type 0 where
  invalid stuck : JsonError

abbrev pub Parser : Type 0 → Type 0
Parser A = Bytes → Result JsonError (A × Bytes)

-- `std::isspace` in the C locale.
abbrev pub is_space : ℕ → Bool
is_space c = c == 32 || (leb 9 c && leb c 13)

unfoldable pub skip_ws : Bytes → Bytes
skip_ws [] = []
skip_ws (c ∷ cs) = let rest = skip_ws cs in if is_space c then rest else c ∷ cs

-- What follows the character, if it comes next.
unfoldable pub consume : ℕ → Bytes → Option Bytes
consume c [] = none
consume c (d ∷ ds) = if d == c then some ds else none

unfoldable pub parse_literal : Bytes → Json → Parser Json
parse_literal lit value text =
    if equal (take (length lit) text) lit then ok (value, drop (length lit) text) else err invalid

abbrev pub quote : ℕ
quote = 34

abbrev pub backslash : ℕ
backslash = 92

unfoldable pub hex_val : ℕ → Option ℕ
hex_val c =
    if leb b'0' c && leb c b'9'
    then some (c - b'0')
    else if leb b'a' c && leb c b'f'
    then some (10 + (c - b'a'))
    else if leb b'A' c && leb c b'F'
    then some (10 + (c - b'A'))
    else none

-- The loop over the digits of `\u`.
unfoldable pub unicode_loop : ℕ → ℕ → Parser ℕ
unfolding hex_val
unicode_loop zero code text = ok (code, text)
unicode_loop (suc k) code [] = err invalid
unicode_loop (suc k) code (h ∷ hs) = elim (hex_val h) [
  | none ↦ err invalid
  | some v ↦ unicode_loop k (bit_or (code * 16) v) hs
]

-- A character of the basic plane in UTF-8.
unfoldable pub utf8 : ℕ → Bytes
utf8 code =
    if ltb code 0x80
    then code ∷ []
    else if ltb code 0x800
    then bit_or 0xC0 (code / 64) ∷ bit_or 0x80 (bit_and code 0x3F) ∷ []
    else bit_or 0xE0 (code / 4096)
      ∷ bit_or 0x80 (bit_and (code / 64) 0x3F)
      ∷ bit_or 0x80 (bit_and code 0x3F)
      ∷ []

-- `\u` needs four more characters.
unfoldable pub unicode : Parser Bytes
unfolding unicode_loop utf8
unicode text =
    if ltb (length text) 4
    then err invalid
    else unicode_loop 4 0 text >>= λ (code, rest). ok (utf8 code, rest)

-- What a backslash and the characters behind it stand for.
unfoldable pub escaped : Parser Bytes
unfolding unicode
escaped [] = err invalid
escaped (e ∷ rest) =
    if e == quote
    then ok (quote ∷ [], rest)
    else if e == backslash
    then ok (backslash ∷ [], rest)
    else if e == b'/'
    then ok (b'/' ∷ [], rest)
    else if e == b'n'
    then ok (10 ∷ [], rest)
    else if e == b't'
    then ok (9 ∷ [], rest)
    else if e == b'r'
    then ok (13 ∷ [], rest)
    else if e == b'b'
    then ok (8 ∷ [], rest)
    else if e == b'f'
    then ok (12 ∷ [], rest)
    else if e == b'u'
    then unicode rest
    else err invalid

unfoldable pub string_loop : ℕ → Bytes → Parser Bytes
unfolding escaped
string_loop zero out text = err stuck
string_loop (suc f) out [] = err invalid
string_loop (suc f) out (c ∷ cs) =
    let after_escape = escaped cs >>= λ (bytes, rest). string_loop f (out ++ bytes) rest in
    let plain = string_loop f (out ++ c ∷ []) cs in
    if c == quote then ok (out, cs) else if c == backslash then after_escape else plain

unfoldable pub parse_string : Parser Bytes
unfolding consume string_loop
parse_string text = elim (consume quote text) [
  | none ↦ err invalid
  | some rest ↦ string_loop (suc (length rest)) [] rest
]
