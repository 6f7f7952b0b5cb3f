-- ===== src/Vless/Decoder/Varint.antt =====
-- `decodeVarint` of src/proxy/vless/decoder.cpp, and the fields that `parseAddons` reads with it.
use cppvless.Common.{
  ℕ, ◌+◌, ◌*◌, ◌%◌, ◌^◌, [], ◌∷◌, bit_and, bit_or, Bytes, leb, ◌==◌, if◌then◌else◌, Option, none,
  some,
}

-- The loop from `pos` on: the bytes not read yet, and the locals. `none` is the exception
-- "invalid addons varint". The shift is by at most 63 places, in 64 bits.
unfoldable pub varint_loop : Bytes → ℕ → ℕ → Option (ℕ × Bytes)
varint_loop [] value shift = none
varint_loop (b ∷ rest) value shift =
    let value' = bit_or value (bit_and b 0x7f * 2 ^ shift % 2 ^ 64) in
    let more = varint_loop rest value' (shift + 7) in
    if leb shift 63 then (if bit_and b 0x80 == 0 then some (value', rest) else more) else none

unfoldable pub decode_varint : Bytes → Option (ℕ × Bytes)
unfolding varint_loop
decode_varint bytes = varint_loop bytes 0 0
