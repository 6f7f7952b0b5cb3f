-- ===== src/Vision/Records/Complete.antt =====
-- Whole records of application data, which `VisionWriter::isCompleteRecord` accepts
-- (src/proxy/vless/vision.cpp).
use cppvless.Common.{
  ℕ, zero, suc, ◌+◌, ◌*◌, ◌≤◌, ◌<◌, ◌≡◌, refl, ap, ◌∙◌, true, [], ◌∷◌, ◌++◌, arith, Bytes, length,
  length-append, drop, drop-append, lt→ltb, le→ltb_false, some, bit_or,
}
use cppvless.Common.Bits.{or_byte}
use cppvless.Vision.Records.{header_step, records_loop}

-- Records of type 0x17 and version 0x0303, one behind the other.
pub data IsRecords : Bytes → Type 0 where
  no_record : IsRecords []
  one_record :
      (hi lo : ℕ) (payload : Bytes) {rest : Bytes}
      → hi * 256 + lo ≡ length payload
      → 0 < length payload
      → lo < 256
      → IsRecords rest
      → IsRecords (0x17 ∷ 0x03 ∷ 0x03 ∷ hi ∷ lo ∷ (payload ++ rest))

header_records :
    (fuel hi lo : ℕ) (rest : Bytes)
    → records_loop (suc (suc (suc (suc (suc fuel))))) 5 0 (0x17 ∷ 0x03 ∷ 0x03 ∷ hi ∷ lo ∷ rest)
      ≡ records_loop fuel 0 (bit_or (hi * 256) lo) rest
unfolding records_loop header_step
header_records fuel hi lo rest = refl

payload_records :
    (fuel n b : ℕ) (bs : Bytes)
    → 0 < n
    → n ≤ length (b ∷ bs)
    → records_loop (suc fuel) 0 n (b ∷ bs) ≡ records_loop fuel 5 0 (drop n (b ∷ bs))
unfolding records_loop
payload_records fuel n b bs pos le = rw (lt→ltb 0 n pos, le→ltb_false (length (b ∷ bs)) n le) refl

pub records_complete :
    (d : Bytes) → IsRecords d → (fuel : ℕ) → length d ≤ fuel → records_loop fuel 5 0 d ≡ some true
records_complete d no_record fuel h = unfold records_loop in refl
records_complete d (one_record hi lo [] {rest} e pos byte more) fuel h = absurd (omega arith)
records_complete d (one_record hi lo (p ∷ ps) {rest} e pos byte more)
      (suc (suc (suc (suc (suc (suc fuel)))))) h =
    header_records (suc fuel) hi lo ((p ∷ ps) ++ rest)
    ∙ ap (λ n. records_loop (suc fuel) 0 n ((p ∷ ps) ++ rest)) (or_byte hi lo byte ∙ e)
    ∙ payload_records fuel (length (p ∷ ps)) p (ps ++ rest) pos
        (omega (arith, length-append ps rest))
    ∙ ap (records_loop fuel 5 0) (drop-append (length (p ∷ ps)) (p ∷ ps) rest refl)
    ∙ records_complete rest more fuel (omega (arith, length-append ps rest, h))
records_complete d (one_record hi lo (p ∷ ps) {rest} e pos byte more)
      (suc (suc (suc (suc (suc zero))))) h =
    absurd (omega arith)
records_complete d (one_record hi lo (p ∷ ps) {rest} e pos byte more) (suc (suc (suc (suc zero))))
      h =
    absurd (omega arith)
records_complete d (one_record hi lo (p ∷ ps) {rest} e pos byte more) (suc (suc (suc zero))) h =
    absurd (omega arith)
records_complete d (one_record hi lo (p ∷ ps) {rest} e pos byte more) (suc (suc zero)) h =
    absurd (omega arith)
records_complete d (one_record hi lo (p ∷ ps) {rest} e pos byte more) (suc zero) h =
    absurd (omega arith)
records_complete d (one_record hi lo (p ∷ ps) {rest} e pos byte more) zero h = absurd (omega arith)
