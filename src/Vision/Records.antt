-- ===== src/Vision/Records.antt =====
-- `VisionWriter::isCompleteRecord` of src/proxy/vless/vision.cpp.
pub mod Complete
pub mod Laws
use cppvless.Common.{
  ℕ, zero, suc, ◌+◌, ◌-◌, ◌*◌, bit_or, Bool, true, false, not, ◌&&◌, [], ◌∷◌, Bytes, length, drop,
  ltb, ◌==◌, if◌then◌else◌, Option, none, some,
}

-- The switch over `headerLen`: the record length so far, or `none` for `return false`.
unfoldable pub header_step : ℕ → ℕ → ℕ → Option ℕ
header_step header_len record_len byte =
    if header_len == 5
    then (if not (byte == 0x17) then none else some record_len)
    else if header_len == 4
    then (if not (byte == 0x03) then none else some record_len)
    else if header_len == 3
    then (if not (byte == 0x03) then none else some record_len)
    else if header_len == 2
    then some (byte * 256)
    else if header_len == 1
    then some (bit_or record_len byte)
    else some record_len

-- `while (i < len)` from the bytes left on; the outer `none` says that the fuel ran out. A round
-- takes a byte at least.
unfoldable pub records_loop : ℕ → ℕ → ℕ → Bytes → Option Bool
unfolding header_step
records_loop fuel header_len record_len [] = some (header_len == 5 && record_len == 0)
records_loop zero header_len record_len (b ∷ bs) = none
records_loop (suc fuel) header_len record_len (b ∷ bs) =
    let skipped = records_loop fuel 5 0 (drop record_len (b ∷ bs)) in
    if ltb 0 header_len
    then elim (header_step header_len record_len b) [
      | none ↦ some false
      | some record_len' ↦ records_loop fuel (header_len - 1) record_len' bs
    ]
    else if ltb 0 record_len
    then (if ltb (length (b ∷ bs)) record_len then some false else skipped)
    else some false

abbrev pub answer : Option Bool → Bool
answer (some b) = b
answer none = false

unfoldable pub is_complete_record : Bytes → Bool
unfolding records_loop
is_complete_record d = answer (records_loop (length d) 5 0 d)
