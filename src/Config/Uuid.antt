-- ===== src/Config/Uuid.antt =====
-- `generateUuid` of src/common/config.cpp. The sixteen random bytes are an argument.
pub mod RoundTrip
use cppvless.Common.{
  ℕ, ◌+◌, ◌/◌, ◌%◌, bit_and, bit_or, [], ◌∷◌, ◌++◌, Bytes, take, drop, set, get_or, ltb,
  if◌then◌else◌,
}

-- `snprintf` prints a byte by "%02x" as two lower-case digits.
abbrev pub hex_digit : ℕ → ℕ
hex_digit d = if ltb d 10 then b'0' + d else 87 + d

unfoldable pub hex_bytes : Bytes → Bytes
hex_bytes [] = []
hex_bytes (b ∷ bs) = hex_digit (b / 16) ∷ hex_digit (b % 16) ∷ hex_bytes bs

-- 4, 2, 2, 2 and 6 bytes, with dashes between.
unfoldable pub format_uuid : Bytes → Bytes
unfolding hex_bytes
format_uuid bytes =
    hex_bytes (take 4 bytes)
    ++ (b'-'
        ∷ (hex_bytes (take 2 (drop 4 bytes))
            ++ (b'-'
                ∷ (hex_bytes (take 2 (drop 6 bytes))
                    ++ (b'-'
                        ∷ (hex_bytes (take 2 (drop 8 bytes))
                            ++ (b'-' ∷ hex_bytes (drop 10 bytes))))))))

-- Version 4 and the variant bits.
unfoldable pub stamp : Bytes → Bytes
stamp bytes =
    let versioned = set bytes 6 (bit_or (bit_and (get_or bytes 6 0) 0x0f) 0x40 % 256) in
    set versioned 8 (bit_or (bit_and (get_or bytes 8 0) 0x3f) 0x80 % 256)

unfoldable pub generate_uuid : Bytes → Bytes
unfolding stamp format_uuid
generate_uuid random = format_uuid (stamp random)
