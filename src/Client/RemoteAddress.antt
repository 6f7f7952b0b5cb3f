-- ===== src/Client/RemoteAddress.antt =====
-- `VlessClientConfig::fromString` of src/client/vless_client.cpp, with `std::stoi`.
pub mod RoundTrip
use cppvless.Common.{
  ℕ, ◌+◌, ◌-◌, ◌%◌, ◌^◌, Bool, true, false, ◌||◌, List, [], ◌∷◌, ◌++◌, Bytes, ltb, leb, ◌==◌,
  if◌then◌else◌, Option, none, some,
}
use cppvless.Common.Int.{ℤ, pos, negsuc}
use cppvless.Config.Json.Number.{read_digits, starts_digit, negate}
use cppvless.Config.Json.Text.{skip_ws}
use cppvless.Config.Load.{to_uint16}

-- The part of `VlessClientConfig` that the text fixes.
pub record VlessClientConfig : Type 0 where
  pub remote_host : Bytes
  pub remote_port : ℕ

abbrev pub default_port : ℕ
default_port = 443

-- `rfind(':')`: the text in front of the last colon and behind it.
unfoldable pub split_last : Bytes → Option (Bytes × Bytes)
split_last [] = none
split_last (c ∷ cs) = elim (split_last cs) [
  | some parts ↦ some (c ∷ parts.0, parts.1)
  | none ↦ if c == b':' then some ([], cs) else none
]

-- The digits in decimal, if there are any and the signed value is an `int`; what follows them is
-- not looked at.
abbrev pub in_range : ℤ → Option ℤ
in_range (pos n) = if ltb n (2 ^ 31) then some (pos n) else none
in_range (negsuc n) = if ltb n (2 ^ 31) then some (negsuc n) else none

abbrev pub digits_value : (ℕ → ℤ) → Bytes → Option ℤ
digits_value sign text = if starts_digit text then in_range (sign (read_digits text 0).0) else none

abbrev pub signed : Bytes → Option ℤ
signed [] = none
signed (c ∷ cs) =
    if c == b'-'
    then digits_value negate cs
    else if c == b'+'
    then digits_value pos cs
    else digits_value pos (c ∷ cs)

-- `std::stoi`, with nothing for its exceptions.
unfoldable pub stoi : Bytes → Option ℤ
unfolding read_digits skip_ws
stoi text = signed (skip_ws text)

abbrev pub port_or_default : Option ℤ → ℕ
port_or_default none = default_port
port_or_default (some z) = to_uint16 z

unfoldable pub host_and_port : Bytes → Option (Bytes × Bytes) → VlessClientConfig
unfolding stoi to_uint16
host_and_port s none = record { remote_host = s; remote_port = default_port }
host_and_port s (some (host, port)) = record {
  remote_host = host;
  remote_port = port_or_default (stoi port);
}

unfoldable pub from_string : Bytes → VlessClientConfig
unfolding split_last host_and_port
from_string s = host_and_port s (split_last s)
