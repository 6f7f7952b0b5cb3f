-- ===== src/Config/Uuid/RoundTrip.antt =====
-- The validator reads back the texts that `generateUuid` prints.
use cppvless.Common.{
  ℕ, ◌+◌, ◌*◌, ◌/◌, ◌%◌, ◌<◌, ◌≡◌, refl, sym, ap, ◌∙◌, true, some, [], ◌∷◌, ◌++◌, arith, Bytes,
  length, take, drop, take-append-drop, drop-drop, append-nil, All-take, All-drop, All-set,
  length-set, All, IsByte, bit_or,
}
use cppvless.Common.Bits.{or_shift}
use cppvless.Vless.Validator.{
  Validator, add, add_from_string, parse_uuid, compact, hex_pairs, hex_pair, hex_value,
}
use cppvless.Config.Uuid.{hex_digit, hex_bytes, format_uuid, stamp, generate_uuid}

hex_value-hex_digit : (d : ℕ) → d < 16 → hex_value (hex_digit d) ≡ some d
unfolding hex_value
hex_value-hex_digit d h = ground arith

compact-hex_bytes :
    (bs rest : Bytes)
    → All IsByte bs
    → compact (hex_bytes bs ++ rest) ≡ hex_bytes bs ++ compact rest
unfolding compact hex_bytes
compact-hex_bytes [] rest h = refl
compact-hex_bytes (b ∷ bs) rest h = ground (arith, compact-hex_bytes bs rest h.1)

hex_bytes-append : (xs ys : Bytes) → hex_bytes xs ++ hex_bytes ys ≡ hex_bytes (xs ++ ys)
unfolding hex_bytes
hex_bytes-append [] ys = refl
hex_bytes-append (x ∷ xs) ys = rw (hex_bytes-append xs ys)

length-hex_bytes : (bs : Bytes) → length (hex_bytes bs) ≡ 2 * length bs
unfolding hex_bytes
length-hex_bytes [] = refl
length-hex_bytes (b ∷ bs) = omega (arith, length-hex_bytes bs)

pair_byte : (b : ℕ) → b < 256 → bit_or (b / 16 * 16) (b % 16) % 256 ≡ b
pair_byte b h = omega (arith, or_shift 4 (b / 16) (b % 16) (omega arith))

hex_pair-hex_digit :
    (b : ℕ)
    → b < 256
    → hex_pair (hex_value (hex_digit (b / 16))) (hex_value (hex_digit (b % 16))) ≡ some b
hex_pair-hex_digit b h =
    rw (hex_value-hex_digit (b / 16) (omega arith), hex_value-hex_digit (b % 16) (omega arith))
      (ap some (pair_byte b h))

hex_pairs-hex_bytes : (bs : Bytes) → All IsByte bs → hex_pairs (length bs) (hex_bytes bs) ≡ some bs
unfolding hex_pairs hex_bytes
hex_pairs-hex_bytes [] h = refl
hex_pairs-hex_bytes (b ∷ bs) h = rw (hex_pair-hex_digit b h.0, hex_pairs-hex_bytes bs h.1)

compact-dash : (xs : Bytes) → compact (b'-' ∷ xs) ≡ compact xs
unfolding compact
compact-dash xs = refl

-- One group and the dash behind it.
compact_group :
    (bs rest done : Bytes)
    → All IsByte bs
    → compact rest ≡ hex_bytes done
    → compact (hex_bytes bs ++ (b'-' ∷ rest)) ≡ hex_bytes (bs ++ done)
compact_group bs rest done h e =
    compact-hex_bytes bs (b'-' ∷ rest) h
    ∙ ap (λ xs. hex_bytes bs ++ xs) (compact-dash rest ∙ e)
    ∙ hex_bytes-append bs done

compact_last : (bs : Bytes) → All IsByte bs → compact (hex_bytes bs) ≡ hex_bytes bs
compact_last bs h =
    ap compact (sym (append-nil (hex_bytes bs)))
    ∙ compact-hex_bytes bs [] h
    ∙ unfold compact in append-nil (hex_bytes bs)

take_next : (n m : ℕ) (bs : Bytes) → take n (drop m bs) ++ drop (m + n) bs ≡ drop m bs
take_next n m bs = rw (← drop-drop n m bs) (take-append-drop n (drop m bs))

regroup :
    (bs : Bytes)
    → take 4 bs
        ++ (take 2 (drop 4 bs) ++ (take 2 (drop 6 bs) ++ (take 2 (drop 8 bs) ++ drop 10 bs)))
      ≡ bs
regroup bs =
    rw (take_next 2 8 bs) (rw (take_next 2 6 bs) (rw (take_next 2 4 bs) (take-append-drop 4 bs)))

compact-format_uuid : (bs : Bytes) → All IsByte bs → compact (format_uuid bs) ≡ hex_bytes bs
unfolding format_uuid
compact-format_uuid bs h =
    compact_group (take 4 bs) _ _ (part 4 bs h) (
      compact_group (take 2 (drop 4 bs)) _ _ (part 2 _ (back 4)) (
        compact_group (take 2 (drop 6 bs)) _ _ (part 2 _ (back 6)) (
          compact_group (take 2 (drop 8 bs)) _ _ (part 2 _ (back 8))
            (compact_last (drop 10 bs) (back 10)))))
    ∙ ap hex_bytes (regroup bs)
  where
    part : (n : ℕ) (xs : Bytes) → All IsByte xs → All IsByte (take n xs)
    part n xs = All-take IsByte n xs

    back : (n : ℕ) → All IsByte (drop n bs)
    back n = All-drop IsByte n bs h

-- The validator reads sixteen bytes back from their printed form.
pub parse_uuid-format_uuid :
    (bs : Bytes) → length bs ≡ 16 → All IsByte bs → parse_uuid (format_uuid bs) ≡ some bs
unfolding parse_uuid
parse_uuid-format_uuid bs n h =
    rw (compact-format_uuid bs h, length-hex_bytes bs, n) (rw (← n) (hex_pairs-hex_bytes bs h))

stamp-IsByte : (bs : Bytes) → All IsByte bs → All IsByte (stamp bs)
unfolding stamp
stamp-IsByte bs h = All-set IsByte 8 _ _ (omega arith) (All-set IsByte 6 _ bs (omega arith) h)

length-stamp : (bs : Bytes) → length (stamp bs) ≡ length bs
unfolding stamp
length-stamp bs = length-set _ 8 _ ∙ length-set bs 6 _

-- A generated UUID is accepted as a user, with the stamped random bytes.
pub add_from_string-generate_uuid :
    (users : Validator) (random : Bytes)
    → length random ≡ 16
    → All IsByte random
    → add_from_string users (generate_uuid random) ≡ (true, add users (stamp random))
unfolding add_from_string generate_uuid
add_from_string-generate_uuid users random n h =
    rw (parse_uuid-format_uuid (stamp random) (length-stamp random ∙ n) (stamp-IsByte random h))
