-- ===== src/Vision/RoundTrip.antt =====
-- The writer of one side of a connection against the reader of the other
-- (src/proxy/vless/vision.cpp).
use cppvless.Common.{
  joined, ℕ, ◌≤◌, ◌<◌, ◌≡◌, refl, sym, ap, ◌∙◌, true, false, List, [], ◌∷◌, ◌++◌, append_assoc,
  arith, Bytes, length, take, drop, take-append, drop-append, take-append_le, All, ◌==◌,
  if◌then◌else◌, Option, some,
}
use cppvless.Vision.Context.{VisionContext, cmd_continue, full_header_size}
use cppvless.Vision.Reader.{VisionReader, new_reader}
use cppvless.Vision.Reader.Feed.{feed, feed_next, feed_stop}
use cppvless.Vision.Reader.Segments.{process_all, process_all-joined, began}
use cppvless.Vision.Writer.{VisionWriter, new_writer, frame_head, Processed, process}
use cppvless.Vision.Writer.Frames.{
  between, feed-frame, IsFramed, is_framed, IsWritten, goes_on, ends, process-IsWritten,
  process_raw,
}

abbrev pub IsShort : Bytes → Type 0
IsShort d = length d < 65536

-- Behind the last frame everything is passed on.
feed_behind :
    (command : ℕ) (bs : Bytes) (r : VisionReader)
    → r.within_padding ≡ true
    → (command == cmd_continue) ≡ false
    → (feed bs (between command r)).0 ≡ bs
feed_behind command [] r w c = unfold feed in refl
feed_behind command (b ∷ bs) r w c = ap (λ p. p.0) (feed_stop b bs (between command r) w refl c)

module _ {G : Type 0} (uniform : ℕ → G → ℕ × G) where
  -- The writer is called with one chunk after the other.
  unfoldable pub write_all : VisionWriter G → Option VisionContext → List Bytes → Bytes
  write_all w ctx [] = []
  write_all w ctx (d ∷ ds) =
      let p = process uniform w ctx d in p.output ++ write_all p.writer p.context ds

  write_all_raw :
      (ds : List Bytes) (w : VisionWriter G) (ctx : Option VisionContext)
      → w.is_padding ≡ false
      → write_all w ctx ds ≡ joined ds
  unfolding write_all
  write_all_raw [] w ctx h = refl
  write_all_raw (d ∷ ds) w ctx h =
      let (out, next) = process_raw uniform d w ctx h in
      let p = process uniform w ctx d in
      ap (λ o. o ++ write_all p.writer p.context ds) out
      ∙ ap (λ o. d ++ o) (write_all_raw ds p.writer p.context next)

  -- Behind the UUID, which the first chunk brings, the stream gives these chunks.
  Gives : VisionWriter G → Bytes → List Bytes → VisionReader → Type 0
  Gives w stream ds r =
      (x : Bytes) × (stream ≡ (if w.uuid_written then [] else w.uuid) ++ x)
      × ((feed x r).0 ≡ joined ds)

  -- What the rest of the chunks is known to give.
  abbrev Rest : List Bytes → Type 0
  Rest ds =
      (w : VisionWriter G) (ctx : Option VisionContext) (r : VisionReader)
      → w.uuid_written ≡ true
      → w.is_padding ≡ true
      → w.direct_copy ≡ false
      → r.within_padding ≡ true
      → r.remaining_command ≡ some 5
      → (feed (write_all w ctx ds) r).0 ≡ joined ds

  framed_rest :
      (w : VisionWriter G) (d : Bytes) (command : ℕ) (p : Bytes × VisionWriter G) (rest : Bytes)
      (r : VisionReader)
      → IsFramed uniform w d command p
      → IsShort d
      → r.within_padding ≡ true
      → r.remaining_command ≡ some 5
      → (ds : List Bytes) → (feed rest (between command r)).0 ≡ joined ds
      → Gives w (p.0 ++ rest) (d ∷ ds) r
  unfolding Gives
  framed_rest w d command p rest r (is_framed pad g short) hd within due ds e =
      let opening = if w.uuid_written then [] else w.uuid in
      let head = frame_head command (length d) (length pad) in
      (
        head ++ (d ++ (pad ++ rest)),
        append_assoc opening (head ++ (d ++ pad)) rest
            ∙ ap (λ o. opening ++ (head ++ o)) (append_assoc d pad rest),
        ap (λ q. q.0) (feed-frame command d pad rest r within due hd short) ∙ ap (λ o. d ++ o) e,
      )

  IsFramed-writer :
      (w : VisionWriter G) (d : Bytes) (command : ℕ) (p : Bytes × VisionWriter G)
      → IsFramed uniform w d command p
      → (p.1.uuid_written ≡ true)
        × (p.1.is_padding ≡ w.is_padding)
        × (p.1.direct_copy ≡ w.direct_copy)
  IsFramed-writer w d command p (is_framed pad g short) = (refl, refl, refl)

  written-Rest :
      (w : VisionWriter G) (d : Bytes) (ds : List Bytes) (p : Processed uniform) (r : VisionReader)
      → IsWritten uniform w d p
      → Rest ds
      → IsShort d
      → w.is_padding ≡ true
      → w.direct_copy ≡ false
      → r.within_padding ≡ true
      → r.remaining_command ≡ some 5
      → Gives w (p.output ++ write_all p.writer p.context ds) (d ∷ ds) r
  unfolding Gives
  written-Rest w d ds p r (goes_on {p = f} ctx framed) more hd pad raw within due =
      let (opened, same_pad, same_raw) = IsFramed-writer w d cmd_continue f framed in
      let rest = write_all f.1 ctx ds in
      framed_rest w d cmd_continue f rest r framed hd within due ds (
        feed_next rest (between cmd_continue r) within refl refl
        ∙ more f.1 ctx (record (between cmd_continue r) { remaining_command = some 5 }) opened
            (same_pad ∙ pad) (same_raw ∙ raw) within refl)
  written-Rest w d ds p r (ends {p = f} command direct ctx ne framed) more hd pad raw within due =
      let w' = record w { is_padding = false; direct_copy = direct } in
      let (opened, same_pad, same_raw) = IsFramed-writer w' d command f framed in
      let rest = write_all f.1 ctx ds in
      framed_rest w' d command f rest r framed hd within due ds
        (feed_behind command rest r within ne ∙ write_all_raw ds f.1 ctx same_pad)

  write_all-Gives :
      (b : ℕ) (bs : Bytes) (ds : List Bytes) (w : VisionWriter G) (ctx : Option VisionContext)
      (r : VisionReader)
      → Rest ds
      → IsShort (b ∷ bs)
      → w.is_padding ≡ true
      → w.direct_copy ≡ false
      → r.within_padding ≡ true
      → r.remaining_command ≡ some 5
      → Gives w (write_all w ctx ((b ∷ bs) ∷ ds)) ((b ∷ bs) ∷ ds) r
  unfolding write_all
  write_all-Gives b bs ds w ctx r more hd pad raw within due =
      written-Rest w (b ∷ bs) ds (process uniform w ctx (b ∷ bs)) r
        (process-IsWritten uniform b bs w ctx pad raw) more hd pad raw within due

  write_all_empty :
      (ds : List Bytes) (w : VisionWriter G) (ctx : Option VisionContext)
      → write_all w ctx ([] ∷ ds) ≡ write_all w ctx ds
  unfolding write_all process
  write_all_empty ds w ctx = refl

  gives-Rest : (ds : List Bytes) → All IsShort ds → Rest ds
  unfolding write_all Gives
  gives-Rest [] hs w ctx r opened pad raw within due = unfold feed in refl
  gives-Rest ([] ∷ ds) hs w ctx r opened pad raw within due =
      ap (λ o. (feed o r).0) (write_all_empty ds w ctx)
      ∙ gives-Rest ds hs.1 w ctx r opened pad raw within due
  gives-Rest ((b ∷ bs) ∷ ds) hs w ctx r opened pad raw within due =
      let (x, same, e) =
        write_all-Gives b bs ds w ctx r (gives-Rest ds hs.1) hs.0 pad raw within due in
      ap (λ o. (feed o r).0) (same ∙ rw opened refl) ∙ e

  -- The chunks, each below 65536 bytes and the first not empty, that go into a new writer come out of
  -- a new reader of the same UUID, whatever the padding, the context on either side, and the reads
  -- that carry the stream, if the first read has the 21 bytes of the first header.
  pub process_all-write_all :
      (uuid d : Bytes) (ds cs : List Bytes) (c : Bytes) (g : G)
      (sent received : Option VisionContext)
      → length uuid ≡ 16
      → 1 ≤ length d
      → All IsShort (d ∷ ds)
      → joined (c ∷ cs) ≡ write_all (new_writer uuid g) sent (d ∷ ds)
      → full_header_size ≤ length c
      → process_all (new_reader uuid) received (c ∷ cs) ≡ joined (d ∷ ds)
  unfolding Gives
  process_all-write_all uuid [] ds cs c g sent received hu hd hs stream hc = absurd (omega arith)
  process_all-write_all uuid (b ∷ bs) ds cs c g sent received hu hd hs stream hc =
      let (x, same, e) =
        write_all-Gives b bs ds (new_writer uuid g) sent (began uuid) (gives-Rest ds hs.1) hs.0 refl
          refl refl refl in
      let all : c ++ joined cs ≡ uuid ++ x = stream ∙ same in
      process_all-joined uuid c cs received hc (
        sym (take-append_le 16 c (joined cs) (omega arith))
        ∙ ap (take 16) all
        ∙ take-append 16 uuid x hu)
      ∙ ap (λ o. (feed (drop 16 o) (began uuid)).0) all
      ∙ ap (λ o. (feed o (began uuid)).0) (drop-append 16 uuid x hu)
      ∙ e
