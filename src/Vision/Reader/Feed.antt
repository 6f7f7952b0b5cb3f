-- ===== src/Vision/Reader/Feed.antt =====
-- The reader one byte at a time: what the main loop amounts to.
use cppvless.Common.{
  ℕ, ◌≡◌, refl, sym, ap, ◌∙◌, Bool, true, false, not, inl, inr, [], ◌∷◌, ◌++◌, append_assoc, arith,
  Bytes, ◌==◌, if◌then◌else◌, Bool-cases, some,
}
use cppvless.Vision.Context.{cmd_continue, cmd_direct}
use cppvless.Vision.Reader.{VisionReader, positive, minus, header_byte, prepend}

abbrev pub is_busy : VisionReader → Bool
is_busy r =
    if positive r.remaining_command
    then true
    else if positive r.remaining_content
    then true
    else positive r.remaining_padding

abbrev pub stopped : VisionReader → VisionReader
stopped r = record r {
  within_padding = false;
  direct_copy = if r.current_command == cmd_direct then true else r.direct_copy;
}

-- A reader between frames turns to the next header, or stops, when a byte arrives.
unfoldable pub ready : VisionReader → VisionReader
ready r =
    if not r.within_padding
    then r
    else if is_busy r
    then r
    else if r.current_command == cmd_continue
    then record r { remaining_command = some 5 }
    else stopped r

unfoldable pub emit : VisionReader → ℕ → Bytes
emit r b =
    if positive r.remaining_command then [] else if positive r.remaining_content then b ∷ [] else []

unfoldable pub advance : VisionReader → ℕ → VisionReader
advance r b =
    if positive r.remaining_command
    then header_byte r b
    else if positive r.remaining_content
    then record r { remaining_content = minus r.remaining_content 1 }
    else record r { remaining_padding = minus r.remaining_padding 1 }

unfoldable pub feed : Bytes → VisionReader → Bytes × VisionReader
feed [] r = ([], r)
feed (b ∷ bs) r =
    let q = ready r in
    let rest = prepend (emit q b) (feed bs (advance q b)) in
    if q.within_padding then rest else (b ∷ bs, q)

pub prepend_nil : (p : Bytes × VisionReader) → prepend [] p ≡ p
prepend_nil (out, r) = refl

pub prepend-prepend :
    (xs ys : Bytes) (p : Bytes × VisionReader) → prepend xs (prepend ys p) ≡ prepend (xs ++ ys) p
prepend-prepend xs ys (out, r) = ap (λ o. (o, r)) (sym (append_assoc xs ys out))

ready_busy : (r : VisionReader) → is_busy r ≡ true → ready r ≡ r
unfolding ready
ready_busy r busy = ground arith

ready_next :
    (r : VisionReader)
    → r.within_padding ≡ true
    → is_busy r ≡ false
    → (r.current_command == cmd_continue) ≡ true
    → ready r ≡ record r { remaining_command = some 5 }
unfolding ready
ready_next r w idle c = rw (w, idle, c)

ready_stop :
    (r : VisionReader)
    → r.within_padding ≡ true
    → is_busy r ≡ false
    → (r.current_command == cmd_continue) ≡ false
    → ready r ≡ stopped r
unfolding ready
ready_stop r w idle c = rw (w, idle, c)

ready_passing : (r : VisionReader) → r.within_padding ≡ false → ready r ≡ r
unfolding ready
ready_passing r w = rw w

-- A busy reader takes the byte as it stands.
pub feed_busy :
    (b : ℕ) (bs : Bytes) (r : VisionReader)
    → r.within_padding ≡ true
    → is_busy r ≡ true
    → feed (b ∷ bs) r ≡ prepend (emit r b) (feed bs (advance r b))
unfolding feed
feed_busy b bs r w busy = rw (ready_busy r busy) (rw w)

-- A reader that is done passes everything on.
pub feed_passing : (bs : Bytes) (r : VisionReader) → r.within_padding ≡ false → feed bs r ≡ (bs, r)
unfolding feed
feed_passing [] r w = refl
feed_passing (b ∷ bs) r w = rw (ready_passing r w) (rw w)

pub feed_stop :
    (b : ℕ) (bs : Bytes) (r : VisionReader)
    → r.within_padding ≡ true
    → is_busy r ≡ false
    → (r.current_command == cmd_continue) ≡ false
    → feed (b ∷ bs) r ≡ (b ∷ bs, stopped r)
unfolding feed
feed_stop b bs r w idle c = rw (ready_stop r w idle c)

-- Between two frames the reader acts as one that waits for a header.
pub feed_next :
    (bs : Bytes) (r : VisionReader)
    → r.within_padding ≡ true
    → is_busy r ≡ false
    → (r.current_command == cmd_continue) ≡ true
    → (feed bs r).0 ≡ (feed bs (record r { remaining_command = some 5 })).0
unfolding feed
feed_next [] r w idle c = refl
feed_next (b ∷ bs) r w idle c =
    rw (ready_next r w idle c, ready_busy (record r { remaining_command = some 5 }) refl)

pub feed_next_cons :
    (b : ℕ) (bs : Bytes) (r : VisionReader)
    → r.within_padding ≡ true
    → is_busy r ≡ false
    → (r.current_command == cmd_continue) ≡ true
    → feed (b ∷ bs) r ≡ feed (b ∷ bs) (record r { remaining_command = some 5 })
unfolding feed
feed_next_cons b bs r w idle c =
    rw (ready_next r w idle c, ready_busy (record r { remaining_command = some 5 }) refl)

-- What the pieces of a stream give, one after the other, is what the whole gives.
pub feed-append :
    (xs ys : Bytes) (r : VisionReader)
    → feed (xs ++ ys) r ≡ prepend (feed xs r).0 (feed ys (feed xs r).1)
unfolding feed
feed-append [] ys r = refl
feed-append (x ∷ xs) ys r = elim (Bool-cases (ready r).within_padding) [
  | inl w ↦ simp w (
      ap (prepend (emit (ready r) x)) (feed-append xs ys (advance (ready r) x))
      ∙ prepend-prepend (emit (ready r) x) (feed xs (advance (ready r) x)).0 _)
  | inr w ↦ simp w (sym (ap (prepend (x ∷ xs)) (feed_passing ys (ready r) w)))
]

module _ (r : VisionReader) (b : ℕ) where
  pub at_command :
      positive r.remaining_command ≡ true → (emit r b ≡ []) × (advance r b ≡ header_byte r b)
  unfolding emit advance
  at_command h = (rw h, rw h)

  pub at_content :
      positive r.remaining_command ≡ false
      → positive r.remaining_content ≡ true
      → (emit r b ≡ b ∷ [])
        × (advance r b ≡ record r { remaining_content = minus r.remaining_content 1 })
  unfolding emit advance
  at_content c h = (rw (c, h), rw (c, h))

  pub at_padding :
      positive r.remaining_command ≡ false
      → positive r.remaining_content ≡ false
      → (emit r b ≡ [])
        × (advance r b ≡ record r { remaining_padding = minus r.remaining_padding 1 })
  unfolding emit advance
  at_padding c h = (rw (c, h), rw (c, h))
