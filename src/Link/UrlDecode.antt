-- ===== src/Link/UrlDecode.antt =====
-- The texts in a link against the decoding of RFC 3986 (src/common/link.cpp).
use cppvless.Common.{
  ℕ, ◌+◌, ◌-◌, ◌*◌, ◌/◌, ◌%◌, ◌<◌, ◌≡◌, refl, ap, ◌∙◌, true, false, inl, inr, [], ◌∷◌, arith, Bytes,
  IsByte, All, leb, ◌==◌, ==_iff, if◌then◌else◌, Bool-cases,
}
use cppvless.Link.{url_encode, upper_digit, is_unreserved}

abbrev pub digit_value : ℕ → ℕ
digit_value d = if leb b'A' d then d - 55 else d - b'0'

-- A percent sign and two upper-case digits stand for a byte.
unfoldable pub url_decode : Bytes → Bytes
url_decode [] = []
url_decode (c ∷ []) = c ∷ []
url_decode (c ∷ d ∷ []) = c ∷ d ∷ []
url_decode (c ∷ d ∷ e ∷ cs) =
    let literal = url_decode (d ∷ e ∷ cs) in
    let coded = url_decode cs in
    if c == b'%' then (digit_value d * 16 + digit_value e) ∷ coded else c ∷ literal

url_decode_literal :
    (c : ℕ) (cs : Bytes) → (c == b'%') ≡ false → url_decode (c ∷ cs) ≡ c ∷ url_decode cs
unfolding url_decode
url_decode_literal c [] h = refl
url_decode_literal c (d ∷ []) h = refl
url_decode_literal c (d ∷ e ∷ cs) h = rw h refl

url_decode_coded :
    (d e : ℕ) (cs : Bytes)
    → url_decode (b'%' ∷ d ∷ e ∷ cs) ≡ (digit_value d * 16 + digit_value e) ∷ url_decode cs
unfolding url_decode
url_decode_coded d e cs = refl

unreserved_literal : (c : ℕ) → is_unreserved c ≡ true → (c == b'%') ≡ false
unreserved_literal c h = elim (Bool-cases (c == b'%')) [
  | inl e ↦
      absurd (let is : c ≡ b'%' = (==_iff c b'%').0 e in let h' : false ≡ true = (rw is at h) in cc)
  | inr e ↦ e
]

digit_value-upper_digit : (d : ℕ) → d < 16 → digit_value (upper_digit d) ≡ d
digit_value-upper_digit d h = ground arith

coded_byte :
    (c : ℕ)
    → c < 256
    → digit_value (upper_digit (c / 16)) * 16 + digit_value (upper_digit (c % 16)) ≡ c
coded_byte c h = omega (
  arith,
  digit_value-upper_digit (c / 16) (omega arith),
  digit_value-upper_digit (c % 16) (omega arith),
)

-- What `urlEncode` makes of any bytes is decoded to those bytes.
pub url_decode-url_encode : (s : Bytes) → All IsByte s → url_decode (url_encode s) ≡ s
unfolding url_encode
url_decode-url_encode [] h = unfold url_decode in refl
url_decode-url_encode (c ∷ cs) h = elim (Bool-cases (is_unreserved c)) [
  | inl u ↦ simp u (
      url_decode_literal c (url_encode cs) (unreserved_literal c u)
      ∙ ap (λ r. c ∷ r) (url_decode-url_encode cs h.1))
  | inr u ↦ simp u (
      url_decode_coded (upper_digit (c / 16)) (upper_digit (c % 16)) (url_encode cs)
      ∙ ap (λ b. b ∷ url_decode (url_encode cs)) (coded_byte c h.0)
      ∙ ap (λ r. c ∷ r) (url_decode-url_encode cs h.1))
]
