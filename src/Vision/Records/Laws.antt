-- ===== src/Vision/Records/Laws.antt =====
-- What `VisionWriter::isCompleteRecord` accepts (src/proxy/vless/vision.cpp): whole records of
-- application data that are not empty.
use cppvless.Common.{
  ℕ, zero, suc, ◌+◌, ◌-◌, ◌*◌, ◌≤◌, ◌<◌, ◌≡◌, ◌↔◌, refl, sym, ap, subst, ◌∙◌, Bool, true, false,
  not, ◌&&◌, inl, inr, [], ◌∷◌, arith, Bytes, IsByte, All, All-drop, length, length-take,
  length-drop, take, drop, take-append-drop, ltb, ltb→lt, ltb-false, ◌==◌, ==_iff, if◌then◌else◌,
  Bool-cases, Option, none, some, bit_or,
}
use cppvless.Common.Bits.{or_byte}
use cppvless.Vision.Records.{header_step, records_loop, answer, is_complete_record}
use cppvless.Vision.Records.Complete.{IsRecords, no_record, one_record, records_complete}

-- The header of the first record, for a loop that ends well.
data HasHeader (fuel : ℕ) : Bytes → Type 0 where
  has_header :
      (hi lo left : ℕ) (rest : Bytes)
      → left < fuel
      → records_loop left 0 (bit_or (hi * 256) lo) rest ≡ some true
      → HasHeader fuel (0x17 ∷ 0x03 ∷ 0x03 ∷ hi ∷ lo ∷ rest)

-- The byte that the source compares has the value it wants.
fixed_byte :
    (k x fuel b : ℕ) (bs : Bytes)
    → ltb 0 k ≡ true
    → ((c : ℕ) → header_step k 0 c ≡ (if not (c == x) then none else some 0))
    → records_loop fuel k 0 (b ∷ bs) ≡ some true
    → (left : ℕ) × (fuel ≡ suc left) × (b ≡ x) × (records_loop left (k - 1) 0 bs ≡ some true)
unfolding records_loop
fixed_byte k x zero b bs pos wants h = cc
fixed_byte k x (suc left) b bs pos wants h = elim (Bool-cases (b == x)) [
  | inl e ↦ (left, refl, (==_iff b x).0 e, (simp (pos, wants b, e) at h))
  | inr e ↦ absurd (let h' : some false ≡ some true = (simp (pos, wants b, e) at h) in cc)
]

length_bytes :
    (fuel hi : ℕ) (bs : Bytes)
    → records_loop fuel 2 0 (hi ∷ bs) ≡ some true
    → (left lo : ℕ) × (rest : Bytes) × (fuel ≡ suc (suc left))
      × (bs ≡ lo ∷ rest)
      × (records_loop left 0 (bit_or (hi * 256) lo) rest ≡ some true)
unfolding records_loop header_step
length_bytes zero hi bs h = cc
length_bytes (suc zero) hi [] h = cc
length_bytes (suc zero) hi (lo ∷ rest) h = cc
length_bytes (suc (suc left)) hi [] h = cc
length_bytes (suc (suc left)) hi (lo ∷ rest) h = (left, lo, rest, refl, refl, h)

-- A header does not end with the data.
cut_header : (k left : ℕ) → (k == 5) ≡ false → records_loop left k 0 [] ≡ some true → ⊥
unfolding records_loop
cut_header k left ne h = let h' : some (false && true) ≡ some true = (simp ne at h) in cc

wants_type : (c : ℕ) → header_step 5 0 c ≡ (if not (c == 0x17) then none else some 0)
unfolding header_step
wants_type c = refl

wants_major : (c : ℕ) → header_step 4 0 c ≡ (if not (c == 0x03) then none else some 0)
unfolding header_step
wants_major c = refl

wants_minor : (c : ℕ) → header_step 3 0 c ≡ (if not (c == 0x03) then none else some 0)
unfolding header_step
wants_minor c = refl

minor_sound :
    (left b : ℕ) (bs : Bytes)
    → records_loop left 3 0 (b ∷ bs) ≡ some true
    → HasHeader (suc (suc left)) (0x17 ∷ 0x03 ∷ b ∷ bs)
minor_sound left b [] h =
    let (f1, e1, is_b, h1) = fixed_byte 3 0x03 left b [] refl wants_minor h in
    absurd (cut_header 2 f1 refl h1)
minor_sound left b (hi ∷ bs) h =
    let (f1, e1, is_b, h1) = fixed_byte 3 0x03 left b (hi ∷ bs) refl wants_minor h in
    let (f2, lo, rest, e2, is_bs, h2) = length_bytes f1 hi bs h1 in
    subst (λ c. HasHeader (suc (suc left)) (0x17 ∷ 0x03 ∷ c ∷ hi ∷ bs)) (sym is_b)
      (subst (λ cs. HasHeader (suc (suc left)) (0x17 ∷ 0x03 ∷ 0x03 ∷ hi ∷ cs)) (sym is_bs)
        (has_header hi lo f2 rest (omega (arith, e1, e2)) h2))

header_sound :
    (fuel b : ℕ) (bs : Bytes) → records_loop fuel 5 0 (b ∷ bs) ≡ some true → HasHeader fuel (b ∷ bs)
header_sound fuel b [] h =
    let (f1, e1, is_b, h1) = fixed_byte 5 0x17 fuel b [] refl wants_type h in
    absurd (cut_header 4 f1 refl h1)
header_sound fuel b (c ∷ []) h =
    let (f1, e1, is_b, h1) = fixed_byte 5 0x17 fuel b (c ∷ []) refl wants_type h in
    let (f2, e2, is_c, h2) = fixed_byte 4 0x03 f1 c [] refl wants_major h1 in
    absurd (cut_header 3 f2 refl h2)
header_sound fuel b (c ∷ d ∷ bs) h =
    let (f1, e1, is_b, h1) = fixed_byte 5 0x17 fuel b (c ∷ d ∷ bs) refl wants_type h in
    let (f2, e2, is_c, h2) = fixed_byte 4 0x03 f1 c (d ∷ bs) refl wants_major h1 in
    subst (λ n. HasHeader n (b ∷ c ∷ d ∷ bs)) (sym (e1 ∙ ap suc e2))
      (subst (λ x. HasHeader (suc (suc f2)) (x ∷ c ∷ d ∷ bs)) (sym is_b)
        (subst (λ x. HasHeader (suc (suc f2)) (0x17 ∷ x ∷ d ∷ bs)) (sym is_c)
          (minor_sound f2 d bs h2)))

payload_sound :
    (left n : ℕ) (rest : Bytes)
    → records_loop left 0 n rest ≡ some true
    → (left' : ℕ) × (left ≡ suc left')
      × (0 < n)
      × (n ≤ length rest)
      × (records_loop left' 5 0 (drop n rest) ≡ some true)
unfolding records_loop
payload_sound left n [] h = cc
payload_sound zero n (b ∷ bs) h = cc
payload_sound (suc left) n (b ∷ bs) h = elim (Bool-cases (ltb 0 n)) [
  | inl pos ↦ elim (Bool-cases (ltb (length (b ∷ bs)) n)) [
    | inl cut ↦ absurd (let h' : some false ≡ some true = (simp (pos, cut) at h) in cc)
    | inr cut ↦ (left, refl, ltb→lt 0 n pos, ltb-false _ _ cut, (simp (pos, cut) at h))
  ]
  | inr pos ↦ absurd (let h' : some false ≡ some true = (simp pos at h) in cc)
]

answered : (x : Option Bool) → answer x ≡ true → x ≡ some true
answered none h = cc
answered (some b) h = ap some h

-- The first record, if what is behind it is known to be records.
first_record :
    (fuel : ℕ) (d : Bytes)
    → HasHeader fuel d
    → All IsByte d
    → ((left : ℕ) (rest : Bytes)
        → left < fuel
        → All IsByte rest
        → records_loop left 5 0 rest ≡ some true
        → IsRecords rest)
    → IsRecords d
first_record fuel d (has_header hi lo left rest less h) hd more =
    let byte = hd.1.1.1.1.0 in
    let rest_bytes = hd.1.1.1.1.1 in
    let (left', e, pos, le, h') = payload_sound left (bit_or (hi * 256) lo) rest h in
    let n = hi * 256 + lo in
    let value : bit_or (hi * 256) lo ≡ n = or_byte hi lo byte in
    let pos' : 0 < n = subst (λ k. 0 < k) value pos in
    let le' : n ≤ length rest = subst (λ k. k ≤ length rest) value le in
    subst (λ bs. IsRecords (0x17 ∷ 0x03 ∷ 0x03 ∷ hi ∷ lo ∷ bs)) (take-append-drop n rest)
      (one_record hi lo (take n rest) (omega (arith, length-take n rest, le'))
        (omega (arith, length-take n rest, le', pos')) byte
        (more left' (drop n rest) (omega (arith, e)) (All-drop IsByte n rest rest_bytes)
          (subst (λ k. records_loop left' 5 0 (drop k rest) ≡ some true) value h')))

IsRecords-sound :
    (bound fuel : ℕ) (d : Bytes)
    → fuel ≤ bound
    → All IsByte d
    → records_loop fuel 5 0 d ≡ some true
    → IsRecords d
IsRecords-sound bound fuel [] le hd h = no_record
IsRecords-sound zero zero (b ∷ bs) le hd h = absurd (unfold records_loop in cc)
IsRecords-sound zero (suc fuel) (b ∷ bs) le hd h = absurd (omega arith)
IsRecords-sound (suc bound) fuel (b ∷ bs) le hd h =
    first_record fuel (b ∷ bs) (header_sound fuel b bs h) hd
      (λ left rest less bytes. IsRecords-sound bound left rest (omega (arith, le)) bytes)

-- From any state, with fuel for the bytes left at least, the loop over the records does not run out
-- of fuel.
pub records_loop-ne-none :
    (fuel header_len record_len : ℕ) (d : Bytes)
    → length d ≤ fuel
    → ¬ (records_loop fuel header_len record_len d ≡ none)
unfolding records_loop
records_loop-ne-none fuel k n [] h e = cc
records_loop-ne-none zero k n (b ∷ bs) h e = absurd (omega arith)
records_loop-ne-none (suc fuel) k n (b ∷ bs) h e = elim (Bool-cases (ltb 0 k)) [
  | inl c ↦
      in_header (header_step k n b) (λ m. records_loop-ne-none fuel (k - 1) m bs (omega arith))
        (simp c at e)
  | inr c ↦ elim (Bool-cases (ltb 0 n)) [
    | inl pos ↦ elim (Bool-cases (ltb (length (b ∷ bs)) n)) [
      | inl cut ↦ let e' : some false ≡ none = (simp (c, pos, cut) at e) in cc
      | inr cut ↦
          records_loop-ne-none fuel 5 0 (drop n (b ∷ bs))
            (omega (arith, length-drop n (b ∷ bs), ltb→lt 0 n pos)) (simp (c, pos, cut) at e)
    ]
    | inr pos ↦ let e' : some false ≡ none = (simp (c, pos) at e) in cc
  ]
]
  where
    in_header :
        (x : Option ℕ)
        → ((m : ℕ) → ¬ (records_loop fuel (k - 1) m bs ≡ none))
        → ¬ (elim x [ none ↦ some false | some m ↦ records_loop fuel (k - 1) m bs ] ≡ none)
    in_header none more e = cc
    in_header (some m) more e = more m e

-- `isCompleteRecord` accepts a byte string exactly if it is a sequence of whole application data
-- records that are not empty.
pub is_complete_record_iff :
    (d : Bytes) → All IsByte d → (is_complete_record d ≡ true) ↔ IsRecords d
unfolding is_complete_record
is_complete_record_iff d hd =
    (sound, λ r. ap answer (records_complete d r (length d) (omega arith)))
  where
    sound : answer (records_loop (length d) 5 0 d) ≡ true → IsRecords d
    sound h = IsRecords-sound (length d) (length d) d (omega arith) hd (answered _ h)
