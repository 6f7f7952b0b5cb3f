-- ===== src/Client/RemoteAddress/RoundTrip.antt =====
-- The text of a host and a port under `fromString` (src/client/vless_client.cpp).
use cppvless.Common.{
  ℕ, zero, suc, ◌+◌, ◌/◌, ◌%◌, ◌^◌, ◌<◌, ◌≤◌, ◌≡◌, refl, sym, ap, ◌∙◌, true, [], ◌∷◌, ◌++◌,
  append-nil, arith, Bytes, ltb, lt→ltb, ltb-false, Bool-cases, inl, inr, none, some,
}
use cppvless.Common.Int.{pos}
use cppvless.Config.Json.Number.{
  decimal, decimal_loop, read_digits, read_digits-decimal_loop, starts_digit, starts_digit-decimal,
}
use cppvless.Config.Render.Numbers.{skip_ws_digit}
use cppvless.Config.Load.{to_uint16}
use cppvless.Client.RemoteAddress.{
  split_last, stoi, signed, digits_value, host_and_port, from_string,
}

split_last-append :
    (host text : Bytes)
    → split_last text ≡ none
    → split_last (host ++ (b':' ∷ text)) ≡ some (host, text)
unfolding split_last
split_last-append [] text h = rw h refl
split_last-append (c ∷ cs) text h = rw (split_last-append cs text h) refl

split_last_digit :
    (n : ℕ) (acc : Bytes) → n < 10 → split_last acc ≡ none → split_last ((b'0' + n) ∷ acc) ≡ none
unfolding split_last
split_last_digit n acc b h = rw h (ground arith)

split_last-decimal_loop :
    (f n : ℕ) (acc : Bytes)
    → n < f
    → split_last acc ≡ none
    → split_last (decimal_loop f n acc) ≡ none
unfolding decimal_loop
split_last-decimal_loop zero n acc b h = absurd (omega arith)
split_last-decimal_loop (suc f) n acc b h = elim (Bool-cases (ltb n 10)) [
  | inl e ↦ rw e (split_last_digit (n % 10) acc (omega arith) h)
  | inr e ↦ rw e (
      let b' : 10 ≤ n = ltb-false n 10 e in
      split_last-decimal_loop f (n / 10) ((b'0' + n % 10) ∷ acc) (omega arith)
        (split_last_digit (n % 10) acc (omega arith) h))
]

split_last-decimal : (n : ℕ) → split_last (decimal n) ≡ none
unfolding decimal
split_last-decimal n =
    split_last-decimal_loop (suc n) n [] (omega arith) (unfold split_last in refl)

starts_digit_all : (n : ℕ) → starts_digit (decimal n) ≡ true
starts_digit_all n = ap starts_digit (sym (append-nil (decimal n))) ∙ starts_digit-decimal n []

read_digits-decimal : (n : ℕ) → read_digits (decimal n) 0 ≡ (n, [])
unfolding decimal read_digits
read_digits-decimal n = read_digits-decimal_loop (suc n) n [] (omega arith)

signed_digit : (text : Bytes) → starts_digit text ≡ true → signed text ≡ digits_value pos text
signed_digit [] h = cc
signed_digit (c ∷ cs) h = ground arith

stoi-decimal : (n : ℕ) → n < 2 ^ 31 → stoi (decimal n) ≡ some (pos n)
unfolding stoi
stoi-decimal n h =
    ap signed (skip_ws_digit (decimal n) (starts_digit_all n))
    ∙ (signed_digit (decimal n) (starts_digit_all n)
        ∙ rw (starts_digit_all n) (rw (read_digits-decimal n) (rw (lt→ltb n (2 ^ 31) h) refl)))

-- A host, which may hold colons, and a port, joined by a colon, are read back.
pub from_string_lem :
    (host : Bytes) (port : ℕ)
    → port < 65536
    → from_string (host ++ (b':' ∷ decimal port))
      ≡ record { remote_host = host; remote_port = port }
unfolding from_string host_and_port to_uint16
from_string_lem host port h = rw (split_last-append host (decimal port) (split_last-decimal port)) (
    rw (stoi-decimal port (omega arith))
      (ap (λ p. record { remote_host = host; remote_port = p }) (omega arith)))
