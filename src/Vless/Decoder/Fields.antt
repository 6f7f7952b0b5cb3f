-- ===== src/Vless/Decoder/Fields.antt =====
-- The protobuf fields that a client encodes, and what `parseAddons` makes of them.
use cppvless.Common.{
  ℕ, zero, suc, ◌+◌, ◌*◌, ◌/◌, ◌%◌, ◌^◌, ◌≤◌, ◌<◌, ◌≡◌, refl, ap, ◌∙◌, inl, inr, List, [], ◌∷◌,
  ◌++◌, append_assoc, arith, Bytes, length, length-append, take-append, drop-append, All, ltb,
  ltb→lt, le→ltb_false, Bool-cases, if◌then◌else◌, some, ok, bit_and, bit_or,
}
use cppvless.Common.Bits.{low_three, low_seven, top_bit, or_above}
use cppvless.Vless.Protocol.{Request}
use cppvless.Vless.Decoder.{set_field, next_field, parse_fields, delimited}
use cppvless.Vless.Decoder.Termination.{next_field_shorter}
use cppvless.Vless.Decoder.Varint.{varint_loop, decode_varint}
use native.Mathlib.Numerals.{towards_suc}
use native.Mathlib.Nat.{div-add-mod, mod-eq_of_lt, pow-suc}

-- A number in groups of seven bits, lowest first, in `k + 1` bytes at most.
unfoldable pub groups : ℕ → ℕ → Bytes
groups zero v = v ∷ []
groups (suc k) v =
    let more = groups k (v / 128) in if ltb v 128 then v ∷ [] else (v % 128 + 128) ∷ more

-- One byte adds its group above the bits that are known.
add_group :
    (value g shift : ℕ)
    → value < 2 ^ shift
    → g * 2 ^ shift < 2 ^ 64
    → bit_or value (g * 2 ^ shift % 2 ^ 64) ≡ value + g * 2 ^ shift
add_group value g shift low fits = rw (mod-eq_of_lt fits) (or_above shift g value low)

last_byte :
    (w value shift : ℕ) (rest : Bytes)
    → w < 128
    → shift ≤ 63
    → value < 2 ^ shift
    → w * 2 ^ shift < 2 ^ 64
    → varint_loop (w ∷ rest) value shift ≡ some (value + w * 2 ^ shift, rest)
unfolding varint_loop
last_byte w value shift rest hw hs low fits =
    ground (arith, low_seven w, top_bit w, add_group value w shift)

inner_byte :
    (g value shift : ℕ) (rest : Bytes)
    → g < 128
    → shift ≤ 63
    → value < 2 ^ shift
    → g * 2 ^ shift < 2 ^ 64
    → varint_loop ((g + 128) ∷ rest) value shift
      ≡ varint_loop rest (value + g * 2 ^ shift) (shift + 7)
unfolding varint_loop
inner_byte g value shift rest hg hs low fits =
    ground (arith, low_seven (g + 128), top_bit (g + 128), add_group value g shift)

shift_seven : (s : ℕ) → 2 ^ (s + 7) ≡ 128 * 2 ^ s
shift_seven s = simp towards_suc (omega arith)

split_number : (w p : ℕ) → w * p ≡ w % 128 * p + w / 128 * (128 * p)
split_number w p = omega (arith, ap (λ (t : ℕ). t * p) (div-add-mod w 128))

group_fits : (value g p : ℕ) → g < 128 → value < p → value + g * p < 128 * p
group_fits value g p hg hv = grind arith

part_le : (w p : ℕ) → w % 128 * p ≤ w * p
part_le w p = omega (arith, split_number w p)

varint_loop-groups :
    (k w value shift : ℕ) (rest : Bytes)
    → w < 128 ^ suc k
    → shift + 7 * k ≤ 63
    → value < 2 ^ shift
    → value + w * 2 ^ shift < 2 ^ 64
    → varint_loop (groups k w ++ rest) value shift ≡ some (value + w * 2 ^ shift, rest)
unfolding groups
varint_loop-groups zero w value shift rest hw hs low fits =
    last_byte w value shift rest (omega arith) (omega arith) low (omega arith)
varint_loop-groups (suc k) w value shift rest hw hs low fits = elim (Bool-cases (ltb w 128)) [
  | inl short ↦
      rw short (last_byte w value shift rest (ltb→lt w 128 short) (omega arith) low (omega arith))
  | inr long ↦ rw long (
      inner_byte (w % 128) value shift (groups k (w / 128) ++ rest) (omega arith) (omega arith) low
        (omega (arith, part_le w (2 ^ shift)))
      ∙ varint_loop-groups k (w / 128) (value + w % 128 * 2 ^ shift) (shift + 7) rest
          (omega (arith, pow-suc 128 (suc k))) (omega arith)
          (rw shift_seven (group_fits value (w % 128) (2 ^ shift) (omega arith) low))
          (rw shift_seven (omega (arith, split_number w (2 ^ shift))))
      ∙ rw shift_seven (ap (λ v. some (v, rest)) (omega (arith, split_number w (2 ^ shift)))))
]

-- `decodeVarint` reads a number below 2 ^ 63 from its groups and leaves what follows.
pub decode_varint-groups :
    (v : ℕ) (rest : Bytes) → v < 2 ^ 63 → decode_varint (groups 8 v ++ rest) ≡ some (v, rest)
unfolding decode_varint
decode_varint-groups v rest h =
    varint_loop-groups 8 v 0 0 rest (omega arith) (omega arith) (omega arith) (omega arith)
    ∙ ap (λ w. some (w, rest)) (omega arith)

-- A field of the message `Addons`: length-delimited, or a number, which the decoder skips.
pub data Field : Type 0 where
  text : ℕ → Bytes → Field
  number : ℕ → ℕ → Field

abbrev pub encode_field : Field → Bytes
encode_field (text num payload) = groups 8 (num * 8 + 2) ++ (groups 8 (length payload) ++ payload)
encode_field (number num v) = groups 8 (num * 8) ++ groups 8 v

abbrev pub encode_fields : List Field → Bytes
encode_fields [] = []
encode_fields (f ∷ fs) = encode_field f ++ encode_fields fs

abbrev pub IsField : Field → Type 0
IsField (text num payload) = (num < 2 ^ 60) × (length payload < 2 ^ 63)
IsField (number num v) = (num < 2 ^ 60) × (v < 2 ^ 63)

-- A later field of the same number replaces an earlier one.
abbrev pub apply_field : Request → Field → Request
apply_field req (text num payload) = set_field num payload req
apply_field req (number num v) = req

abbrev pub apply_fields : Request → List Field → Request
apply_fields req [] = req
apply_fields req (f ∷ fs) = apply_fields (apply_field req f) fs

tag_text : (num : ℕ) → bit_and (num * 8 + 2) 0x07 ≡ 2
tag_text num = low_three (num * 8 + 2) ∙ omega arith

tag_number : (num : ℕ) → bit_and (num * 8) 0x07 ≡ 0
tag_number num = low_three (num * 8) ∙ omega arith

field_number : (num : ℕ) → (num * 8 + 2) / 8 ≡ num
field_number num = omega arith

delimited_whole :
    (num : ℕ) (req : Request) (payload rest : Bytes)
    → delimited num req (some (length payload, payload ++ rest))
      ≡ ok (rest, set_field num payload req)
delimited_whole num req payload rest = rw (
  le→ltb_false (length (payload ++ rest)) (length payload)
      (omega (arith, length-append payload rest)),
  take-append (length payload) payload rest refl,
  drop-append (length payload) payload rest refl,
)

next_field-encode_field :
    (f : Field) (rest : Bytes) (req : Request)
    → IsField f
    → next_field (encode_field f ++ rest) req ≡ ok (rest, apply_field req f)
unfolding next_field
next_field-encode_field (text num payload) rest req (hn, hl) =
    rw
      (
        append_assoc (groups 8 (num * 8 + 2)) (groups 8 (length payload) ++ payload) rest,
        append_assoc (groups 8 (length payload)) payload rest,
        decode_varint-groups (num * 8 + 2) _ (omega arith),
        tag_text num,
        field_number num,
        decode_varint-groups (length payload) (payload ++ rest) hl,
      )
      (delimited_whole num req payload rest)
next_field-encode_field (number num v) rest req (hn, hv) = rw (
  append_assoc (groups 8 (num * 8)) (groups 8 v) rest,
  decode_varint-groups (num * 8) _ (omega arith),
  tag_number num,
  decode_varint-groups v rest hv,
)

parse_fields_step :
    (fuel : ℕ) (bytes rest : Bytes) (req req' : Request)
    → next_field bytes req ≡ ok (rest, req')
    → parse_fields (suc fuel) bytes req ≡ parse_fields fuel rest req'
unfolding parse_fields
parse_fields_step fuel [] rest req req' e = unfold next_field decode_varint varint_loop in cc
parse_fields_step fuel (b ∷ bs) rest req req' e = rw e

parse_fields-fuel :
    (fs : List Field) (fuel : ℕ) (req : Request)
    → All IsField fs
    → length (encode_fields fs) ≤ fuel
    → parse_fields fuel (encode_fields fs) req ≡ ok (apply_fields req fs)
parse_fields-fuel [] fuel req h le = unfold parse_fields in refl
parse_fields-fuel (f ∷ fs) zero req h le =
    absurd (
      omega
        (arith, next_field_shorter _ req (next_field-encode_field f (encode_fields fs) req h.0)))
parse_fields-fuel (f ∷ fs) (suc fuel) req h le =
    parse_fields_step fuel _ (encode_fields fs) req (apply_field req f)
      (next_field-encode_field f (encode_fields fs) req h.0)
    ∙ parse_fields-fuel fs fuel (apply_field req f) h.1 (
        omega
          (arith, next_field_shorter _ req (next_field-encode_field f (encode_fields fs) req h.0)))

-- The decoder reads back every list of encoded fields: flow and seed as the last field of their
-- number has them, and all other fields skipped.
pub parse_fields-encode_fields :
    (fs : List Field) (req : Request)
    → All IsField fs
    → parse_fields (length (encode_fields fs)) (encode_fields fs) req ≡ ok (apply_fields req fs)
parse_fields-encode_fields fs req h = parse_fields-fuel fs _ req h (omega arith)
