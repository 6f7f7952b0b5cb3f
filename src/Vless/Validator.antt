-- ===== src/Vless/Validator.antt =====
-- src/proxy/vless/validator.cpp: the list of the users that may connect, and UUID texts.
pub mod Laws
use cppvless.Common.{
  ℕ, zero, suc, ◌+◌, ◌-◌, ◌*◌, ◌%◌, Bool, true, false, ◌&&◌, Option, none, some, List, [], ◌∷◌,
  ◌++◌, bit_or, Bytes, length, get_or, leb, ◌==◌, if◌then◌else◌, equal,
}

-- The value of a hexadecimal digit; `none` is the source's -1.
unfoldable pub hex_value : ℕ → Option ℕ
hex_value c =
    if leb b'0' c && leb c b'9'
    then some (c - b'0')
    else if leb b'a' c && leb c b'f'
    then some (10 + (c - b'a'))
    else if leb b'A' c && leb c b'F'
    then some (10 + (c - b'A'))
    else none

-- The loop that copies `uuid` without its dashes.
unfoldable pub compact : Bytes → Bytes
compact [] = []
compact (c ∷ cs) = let rest = compact cs in if c == b'-' then rest else c ∷ rest

-- `out[i] = (hi << 4) | lo` for one pair of digits.
abbrev pub hex_pair : Option ℕ → Option ℕ → Option ℕ
hex_pair (some hi) (some lo) = some (bit_or (hi * 16) lo % 256)
hex_pair _ _ = none

abbrev pub push_front : Option ℕ → Option Bytes → Option Bytes
push_front (some b) (some bs) = some (b ∷ bs)
push_front _ _ = none

-- The loop over `i`, on the pairs `compact[2 * i]`, `compact[2 * i + 1]` from `i` on.
unfoldable pub hex_pairs : ℕ → Bytes → Option Bytes
unfolding hex_value
hex_pairs zero cs = some []
hex_pairs (suc n) (h ∷ l ∷ cs) = push_front (hex_pair (hex_value h) (hex_value l)) (hex_pairs n cs)
hex_pairs (suc n) _ = none

-- `none` is the result false, after which no caller reads `out`.
unfoldable pub parse_uuid : Bytes → Option Bytes
unfolding compact hex_pairs
parse_uuid uuid =
    let digits = compact uuid in if length digits == 32 then hex_pairs 16 digits else none

-- `users_`
abbrev pub Validator : Type 0
Validator = List Bytes

-- `std::find(users_.begin(), users_.end(), uuid) != users_.end()`
unfoldable pub contains : Validator → Bytes → Bool
unfolding equal
contains [] uuid = false
contains (u ∷ users) uuid = let rest = contains users uuid in if equal u uuid then true else rest

unfoldable pub add : Validator → Bytes → Validator
unfolding contains
add users uuid = if contains users uuid then users else users ++ (uuid ∷ [])

abbrev add_parsed : Validator → Option Bytes → Bool × Validator
add_parsed users (some uuid) = (true, add users uuid)
add_parsed users none = (false, users)

unfoldable pub add_from_string : Validator → Bytes → Bool × Validator
unfolding parse_uuid add
add_from_string users text = add_parsed users (parse_uuid text)
