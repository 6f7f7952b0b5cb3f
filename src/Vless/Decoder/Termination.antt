-- ===== src/Vless/Decoder/Termination.antt =====
-- The loop over the addons ends on every input.
use cppvless.Common.{
  ℕ, zero, suc, ◌+◌, ◌*◌, ◌/◌, ◌%◌, ◌^◌, ◌≤◌, ◌<◌, ◌≡◌, ◌≢◌, refl, sym, ap, ◌∙◌, inl, inr, ◌⊎◌,
  Bool, true, false, List, [], ◌∷◌, ◌++◌, append_assoc, append-nil, arith, Bytes, length,
  length-append, length-drop, take, drop, take-append, drop-append, All, IsByte, ltb, Bool-cases,
  ◌==◌, if◌then◌else◌, Option, none, some, Result, ok, err, bind-eq-ok, bit_and, bit_or,
}
use cppvless.Common
use cppvless.Vless.Protocol.{Request}
use cppvless.Vless.Decoder.{
  DecodeError, stuck, next_field, parse_fields, delimited, skipped, after_tag,
}
use cppvless.Vless.Decoder.Varint.{varint_loop, decode_varint}

-- A varint that is read takes a byte at least.
varint_loop_shorter :
    (bytes : Bytes) (value shift v : ℕ) (rest : Bytes)
    → varint_loop bytes value shift ≡ some (v, rest)
    → length rest < length bytes
unfolding varint_loop
varint_loop_shorter [] value shift v rest e = cc
varint_loop_shorter (b ∷ bs) value shift v rest e = ground (
  arith,
  varint_loop_shorter bs (bit_or value (bit_and b 0x7f * 2 ^ shift % 2 ^ 64)) (shift + 7) v rest,
)

decode_varint_shorter :
    (bytes : Bytes) (v : ℕ) (rest : Bytes)
    → decode_varint bytes ≡ some (v, rest)
    → length rest < length bytes
unfolding decode_varint
decode_varint_shorter bytes v rest = varint_loop_shorter bytes 0 0 v rest

-- What a round of the loop may answer: a shorter rest, or an exception of the source.
abbrev Advances : ℕ → Result DecodeError (Bytes × Request) → Type 0
Advances n (ok (rest, _)) = length rest < n
Advances n (err e) = e ≢ stuck

delimited-Advances :
    (n num : ℕ) (req : Request) (d : Option (ℕ × Bytes))
    → ((v : ℕ) (rest : Bytes) → d ≡ some (v, rest) → length rest < n)
    → Advances n (delimited num req d)
delimited-Advances n num req none h = λ e. cc
delimited-Advances n num req (some (len, rest)) h = elim (Bool-cases (ltb (length rest) len)) [
  | inl e ↦ rw e (λ c. cc)
  | inr e ↦ rw e (omega (arith, h len rest refl, length-drop len rest))
]

skipped-Advances :
    (n : ℕ) (req : Request) (d : Option (ℕ × Bytes))
    → ((v : ℕ) (rest : Bytes) → d ≡ some (v, rest) → length rest < n)
    → Advances n (skipped req d)
skipped-Advances n req none h = λ e. cc
skipped-Advances n req (some (v, rest)) h = h v rest refl

after_tag-Advances :
    (n : ℕ) (req : Request) (d : Option (ℕ × Bytes))
    → ((v : ℕ) (rest : Bytes) → d ≡ some (v, rest) → length rest < n)
    → Advances n (after_tag req d)
after_tag-Advances n req none h = λ e. cc
after_tag-Advances n req (some (tag, rest)) h =
    split (bit_and tag 0x07 == 2) (bit_and tag 0x07 == 0) _ _
      (delimited-Advances n (tag / 8) req (decode_varint rest) shorter)
      (skipped-Advances n req (decode_varint rest) shorter)
  where
    shorter : (v : ℕ) (more : Bytes) → decode_varint rest ≡ some (v, more) → length more < n
    shorter v more e = omega (arith, h tag rest refl, decode_varint_shorter rest v more e)

    split :
        (two none_left : Bool) (x y : Result DecodeError (Bytes × Request))
        → Advances n x
        → Advances n y
        → Advances n
            (if two then x else if none_left then y else err DecodeError.unsupported_wire_type)
    split true z x y hx hy = hx
    split false true x y hx hy = hy
    split false false x y hx hy = λ e. cc

next_field-Advances :
    (bytes : Bytes) (req : Request) → Advances (length bytes) (next_field bytes req)
unfolding next_field
next_field-Advances bytes req =
    after_tag-Advances (length bytes) req (decode_varint bytes) (decode_varint_shorter bytes)

pub next_field_shorter :
    (bytes : Bytes) (req : Request) {rest : Bytes} {req' : Request}
    → next_field bytes req ≡ ok (rest, req')
    → length rest < length bytes
next_field_shorter bytes req e = rw e at (next_field-Advances bytes req)

-- With fuel for the length of the bytes at least, the loop over the fields never runs out of it.
pub parse_fields-ne-stuck :
    (fuel : ℕ) (bytes : Bytes) (req : Request)
    → length bytes ≤ fuel
    → parse_fields fuel bytes req ≢ err stuck
unfolding parse_fields
parse_fields-ne-stuck fuel [] req h = λ e. cc
parse_fields-ne-stuck zero (b ∷ bs) req h = absurd (omega arith)
parse_fields-ne-stuck (suc fuel) (b ∷ bs) req h =
    continues (next_field (b ∷ bs) req) (next_field-Advances (b ∷ bs) req)
      (parse_fields-ne-stuck fuel)
  where
    continues :
        (x : Result DecodeError (Bytes × Request))
        → Advances (length (b ∷ bs)) x
        → ((rest : Bytes) (q : Request) → length rest ≤ fuel → parse_fields fuel rest q ≢ err stuck)
        → Common.◌>>=◌ x (λ p. parse_fields fuel p.0 p.1) ≢ err stuck
    continues (ok (rest, req')) a more = more rest req' (omega arith)
    continues (err e) a more = λ c. a (cc)
