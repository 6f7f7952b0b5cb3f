-- ===== src/Vision/Reader/Loop.antt =====
-- The main loop of the reader gives what the bytes give one at a time, and ends.
use cppvless.Common.{
  ℕ, zero, suc, ◌+◌, ◌-◌, ◌*◌, ◌<◌, ◌≡◌, refl, sym, ap, subst, ◌∙◌, min, Bool, true, false, inl,
  inr, [], ◌∷◌, arith, Bytes, length, take, drop, length-drop, ◌==◌, if◌then◌else◌, Bool-cases,
  Option, none, some,
}
use cppvless.Vision.Context.{cmd_continue}
use cppvless.Vision.Reader.{
  VisionReader, positive, minus, count, header_byte, read_header, Round, goes_on, stops, round,
  prepend, loop, frame_done,
}
use cppvless.Vision.Reader.Feed.{is_busy, feed, feed_stop, feed_next_cons, prepend_nil}
use cppvless.Vision.Reader.Steps.{length-read_header, feed-read_header, feed_content, feed_padding}

-- Rounds still needed: two for a byte, and one to turn to the next header.
abbrev rounds : Bytes → VisionReader → ℕ
rounds left r = 2 * length left + (if is_busy r then 0 else 1)

-- A round does its part of the bytes, and brings the end nearer.
abbrev Works : Bytes → VisionReader → Round → Type 0
Works left r (goes_on out left' r') =
    (feed left r ≡ prepend out (feed left' r'))
    × (r'.within_padding ≡ true)
    × (rounds left' r' < rounds left r)
Works left r (stops out r') = feed left r ≡ (out, r')

shorter :
    (left left' : Bytes) (r r' : VisionReader)
    → length left' < length left
    → rounds left' r' < rounds left r
shorter left left' r r' h = at_most (is_busy r) (is_busy r')
  where
    at_most :
        (x y : Bool)
        → 2 * length left' + (if y then 0 else 1) < 2 * length left + (if x then 0 else 1)
    at_most true true = omega arith
    at_most true false = omega arith
    at_most false true = omega arith
    at_most false false = omega arith

header_round :
    (b : ℕ) (bs : Bytes) (r : VisionReader)
    → r.within_padding ≡ true
    → positive r.remaining_command ≡ true
    → Works (b ∷ bs) r (goes_on [] (read_header (b ∷ bs) r).0 (read_header (b ∷ bs) r).1)
header_round b bs r w h =
    let (same, within) = feed-read_header (b ∷ bs) r w in
    (
      same ∙ sym (prepend_nil _),
      within,
      shorter (b ∷ bs) _ r (read_header (b ∷ bs) r).1
          (unfold read_header in rw h (omega (arith, length-read_header bs (header_byte r b)))),
    )

-- The counter that a round goes by, as a value of its own.
content_round :
    (b : ℕ) (bs : Bytes) (r : VisionReader) (due : Option ℕ)
    → r.remaining_content ≡ due
    → r.within_padding ≡ true
    → positive r.remaining_command ≡ false
    → positive due ≡ true
    → let n = min (count due) (length (b ∷ bs)) in
      Works
        (b ∷ bs)
        r
        (goes_on (take n (b ∷ bs)) (drop n (b ∷ bs)) (record r { remaining_content = minus due n }))
content_round b bs r none e w c h = cc
content_round b bs r (some zero) e w c h = cc
content_round b bs r (some (suc k)) e w c h =
    let n = min (suc k) (length (b ∷ bs)) in
    (
      feed_content n (suc k - n) (b ∷ bs) r w c (e ∙ ap some (omega arith)) (omega arith),
      w,
      shorter (b ∷ bs) (drop n (b ∷ bs)) r (record r { remaining_content = some (suc k - n) })
          (omega (arith, length-drop n (b ∷ bs))),
    )

padding_round :
    (b : ℕ) (bs : Bytes) (r : VisionReader) (due : Option ℕ)
    → r.remaining_padding ≡ due
    → r.within_padding ≡ true
    → positive r.remaining_command ≡ false
    → positive r.remaining_content ≡ false
    → positive due ≡ true
    → let n = min (count due) (length (b ∷ bs)) in
      Works (b ∷ bs) r (goes_on [] (drop n (b ∷ bs)) (record r { remaining_padding = minus due n }))
padding_round b bs r none e w c d h = cc
padding_round b bs r (some zero) e w c d h = cc
padding_round b bs r (some (suc k)) e w c d h =
    let n = min (suc k) (length (b ∷ bs)) in
    (
      feed_padding n (suc k - n) (b ∷ bs) r w c d (e ∙ ap some (omega arith)) (omega arith)
          ∙ sym (prepend_nil _),
      w,
      shorter (b ∷ bs) (drop n (b ∷ bs)) r (record r { remaining_padding = some (suc k - n) })
          (omega (arith, length-drop n (b ∷ bs))),
    )

done_round :
    (b : ℕ) (bs : Bytes) (r : VisionReader)
    → r.within_padding ≡ true
    → is_busy r ≡ false
    → Works (b ∷ bs) r (frame_done (b ∷ bs) r)
done_round b bs r w idle = elim (Bool-cases (r.current_command == cmd_continue)) [
  | inl c ↦ rw c (feed_next_cons b bs r w idle c ∙ sym (prepend_nil _), w, rw idle (omega arith))
  | inr c ↦ rw c (feed_stop b bs r w idle c)
]

-- Which part of the round is run.
module _ (left : Bytes) (r : VisionReader) (c : positive r.remaining_command ≡ false) where
  is_content_round :
      positive r.remaining_content ≡ true
      → let n = min (count r.remaining_content) (length left) in
        round left r
        ≡ goes_on
            (take n left)
            (drop n left)
            (record r { remaining_content = minus r.remaining_content n })
  unfolding round
  is_content_round h = simp (c, h)

  is_padding_round :
      positive r.remaining_content ≡ false
      → positive r.remaining_padding ≡ true
      → let n = min (count r.remaining_padding) (length left) in
        round left r
        ≡ goes_on [] (drop n left) (record r { remaining_padding = minus r.remaining_padding n })
  unfolding round
  is_padding_round d h = simp (c, d, h)

  is_done_round :
      positive r.remaining_content ≡ false
      → positive r.remaining_padding ≡ false
      → (round left r ≡ frame_done left r) × (is_busy r ≡ false)
  unfolding round
  is_done_round d e = (simp (c, d, e), simp (c, d, e))

is_header_round :
    (left : Bytes) (r : VisionReader)
    → positive r.remaining_command ≡ true
    → round left r ≡ goes_on [] (read_header left r).0 (read_header left r).1
unfolding round
is_header_round left r h = simp h

round-Works :
    (b : ℕ) (bs : Bytes) (r : VisionReader)
    → r.within_padding ≡ true
    → Works (b ∷ bs) r (round (b ∷ bs) r)
round-Works b bs r w = elim (Bool-cases (positive r.remaining_command)) [
  | inl h ↦ becomes _ _ (is_header_round (b ∷ bs) r h) (header_round b bs r w h)
  | inr c ↦ elim (Bool-cases (positive r.remaining_content)) [
    | inl h ↦
        becomes _ _ (is_content_round (b ∷ bs) r c h)
          (content_round b bs r r.remaining_content refl w c h)
    | inr d ↦ elim (Bool-cases (positive r.remaining_padding)) [
      | inl h ↦
          becomes _ _ (is_padding_round (b ∷ bs) r c d h)
            (padding_round b bs r r.remaining_padding refl w c d h)
      | inr e ↦
          let (eq, idle) = is_done_round (b ∷ bs) r c d e in
          becomes _ _ eq (done_round b bs r w idle)
    ]
  ]
]
  where
    becomes : (x y : Round) → x ≡ y → Works (b ∷ bs) r y → Works (b ∷ bs) r x
    becomes x y e h = subst (Works (b ∷ bs) r) (sym e) h

pub loop-feed :
    (fuel : ℕ) (left : Bytes) (r : VisionReader)
    → r.within_padding ≡ true
    → rounds left r < fuel
    → loop fuel left r ≡ feed left r
unfolding loop
loop-feed zero left r w h = absurd (omega arith)
loop-feed (suc fuel) [] r w h = unfold feed in refl
loop-feed (suc fuel) (b ∷ bs) r w h =
    follow (round (b ∷ bs) r) (round-Works b bs r w) (loop-feed fuel)
  where
    follow :
        (x : Round)
        → Works (b ∷ bs) r x
        → ((left : Bytes) (q : VisionReader)
            → q.within_padding ≡ true
            → rounds left q < fuel
            → loop fuel left q ≡ feed left q)
        → elim x [
          | goes_on out left r' ↦ prepend out (loop fuel left r')
          | stops out r' ↦ (out, r')
        ]
          ≡ feed (b ∷ bs) r
    follow (goes_on out left q) (e, within, less) more =
        ap (prepend out) (more left q within (omega arith)) ∙ sym e
    follow (stops out q) e more = sym e
