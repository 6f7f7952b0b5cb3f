-- ===== src/Vision/Reader/Steps.antt =====
-- What single steps of the reader's main loop do to the bytes, one at a time.
use cppvless.Common.{
  ℕ, zero, suc, ◌+◌, ◌≤◌, ◌≡◌, refl, sym, ap, ◌∙◌, true, false, inl, inr, [], ◌∷◌, arith, Bytes,
  length, take, drop, Bool-cases, some,
}
use cppvless.Vision.Reader.{VisionReader, positive, header_byte, read_header, prepend}
use cppvless.Vision.Reader.Feed.{
  is_busy, feed, feed_busy, at_command, at_content, at_padding, prepend_nil, prepend-prepend,
}

pub length-read_header : (bs : Bytes) (r : VisionReader) → length (read_header bs r).0 ≤ length bs
unfolding read_header
length-read_header [] r = omega arith
length-read_header (b ∷ bs) r = ground (arith, length-read_header bs (header_byte r b))

pub header_busy : (r : VisionReader) → positive r.remaining_command ≡ true → is_busy r ≡ true
header_busy r h = ground arith

pub content_busy : (r : VisionReader) → positive r.remaining_content ≡ true → is_busy r ≡ true
content_busy r h = ground arith

pub padding_busy : (r : VisionReader) → positive r.remaining_padding ≡ true → is_busy r ≡ true
padding_busy r h = ground arith

pub header_byte-within :
    (r : VisionReader) (b : ℕ) → (header_byte r b).within_padding ≡ r.within_padding
unfolding header_byte
header_byte-within r b = ground arith

pub feed_header :
    (b : ℕ) (bs : Bytes) (r : VisionReader)
    → r.within_padding ≡ true
    → positive r.remaining_command ≡ true
    → feed (b ∷ bs) r ≡ feed bs (header_byte r b)
feed_header b bs r w h =
    let (e, a) = at_command r b h in feed_busy b bs r w (header_busy r h) ∙ rw (e, a)

pub feed-read_header :
    (bs : Bytes) (r : VisionReader)
    → r.within_padding ≡ true
    → (feed bs r ≡ feed (read_header bs r).0 (read_header bs r).1)
      × ((read_header bs r).1.within_padding ≡ true)
unfolding read_header
feed-read_header [] r w = (refl, w)
feed-read_header (b ∷ bs) r w = elim (Bool-cases (positive r.remaining_command)) [
  | inl h ↦
      let (same, within) = feed-read_header bs (header_byte r b) (header_byte-within r b ∙ w) in
      rw h (feed_header b bs r w h ∙ same, within)
  | inr h ↦ rw h (refl, w)
]

-- `n` bytes of content, of which `n + m` are due.
pub feed_content :
    (n m : ℕ) (bs : Bytes) (r : VisionReader)
    → r.within_padding ≡ true
    → positive r.remaining_command ≡ false
    → r.remaining_content ≡ some (n + m)
    → n ≤ length bs
    → feed bs r ≡ prepend (take n bs) (feed (drop n bs) (record r { remaining_content = some m }))
feed_content zero m bs r w c h le =
    ap (λ k. feed bs (record r { remaining_content = k })) (h ∙ ap some (omega arith))
    ∙ sym (prepend_nil _)
feed_content (suc n) m [] r w c h le = absurd (omega arith)
feed_content (suc n) m (b ∷ bs) r w c h le =
    let due : positive r.remaining_content ≡ true = rw h (ground arith) in
    let (e, a) = at_content r b c due in
    feed_busy b bs r w (content_busy r due)
    ∙ rw (e, a, h)
        (ap (λ k. prepend (b ∷ []) (feed bs (record r { remaining_content = some k })))
            (omega arith)
          ∙ ap (prepend (b ∷ [])) (
              feed_content n m bs (record r { remaining_content = some (n + m) }) w c refl
                (omega arith))
          ∙ prepend-prepend (b ∷ []) (take n bs) _)

pub feed_padding :
    (n m : ℕ) (bs : Bytes) (r : VisionReader)
    → r.within_padding ≡ true
    → positive r.remaining_command ≡ false
    → positive r.remaining_content ≡ false
    → r.remaining_padding ≡ some (n + m)
    → n ≤ length bs
    → feed bs r ≡ feed (drop n bs) (record r { remaining_padding = some m })
feed_padding zero m bs r w c d h le =
    ap (λ k. feed bs (record r { remaining_padding = k })) (h ∙ ap some (omega arith))
feed_padding (suc n) m [] r w c d h le = absurd (omega arith)
feed_padding (suc n) m (b ∷ bs) r w c d h le =
    let due : positive r.remaining_padding ≡ true = rw h (ground arith) in
    let (e, a) = at_padding r b c d in
    feed_busy b bs r w (padding_busy r due)
    ∙ rw (e, a, h)
        (prepend_nil _
          ∙ ap (λ k. feed bs (record r { remaining_padding = some k })) (omega arith)
          ∙ feed_padding n m bs (record r { remaining_padding = some (n + m) }) w c d refl
              (omega arith))
