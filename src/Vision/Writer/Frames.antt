-- ===== src/Vision/Writer/Frames.antt =====
-- The frames that the writer makes, and what the reader takes from a frame.
use cppvless.Common.{
  ℕ, zero, suc, ◌-◌, ◌*◌, ◌/◌, ◌%◌, ◌<◌, ◌≡◌, refl, sym, ap, subst, ◌∙◌, Bool, true, false, not,
  ◌&&◌, inl, inr, [], ◌∷◌, ◌++◌, arith, Bytes, length, length-append, take-append, drop-append, ltb,
  leb, ltb-false, ◌==◌, if◌then◌else◌, Bool-cases, Option, none, some, bit_or,
}
use cppvless.Common.Bits.{or_high_low}
use cppvless.Vision.Context.{VisionContext, cmd_continue, cmd_direct, cmd_end, max_frame_size}
use cppvless.Vision.Reader.{VisionReader, header_byte, prepend}
use cppvless.Vision.Reader.Feed.{feed}
use cppvless.Vision.Reader.Steps.{feed_header, feed_content, feed_padding}
use cppvless.Vision.Writer.{
  VisionWriter, frame_head, clamp, padding_len, random_bytes, draw_padding, padding, header_size,
  Processed, process, choose_padding, filtered, is_application_data,
}

-- A reader behind a frame with this command.
abbrev pub between : ℕ → VisionReader → VisionReader
between command r = record r {
  remaining_command = some 0;
  remaining_content = some 0;
  remaining_padding = some 0;
  current_command = command;
}

-- A reader behind the header of a frame.
abbrev headed : ℕ → ℕ → ℕ → VisionReader → VisionReader
headed command content_len padding_len' r = record r {
  remaining_command = some 0;
  remaining_content = some content_len;
  remaining_padding = some padding_len';
  current_command = command;
}

abbrev at_header : ℕ → VisionReader → VisionReader
at_header n r = record r { remaining_command = some n }

feed-header_bytes :
    (command n m : ℕ) (rest : Bytes) (r : VisionReader)
    → r.within_padding ≡ true
    → n < 65536
    → m < 65536
    → feed (frame_head command n m ++ rest) (at_header 5 r) ≡ feed rest (headed command n m r)
unfolding header_byte
feed-header_bytes command n m rest r w hn hm =
    feed_header _ _ (at_header 5 r) w refl
    ∙ feed_header _ _ (header_byte (at_header 5 r) command) w refl
    ∙ feed_header _ _ _ w refl
    ∙ feed_header _ _ _ w refl
    ∙ feed_header _ _ _ w refl
    ∙ ap (λ k. feed rest (headed command k (bit_or (m / 256 % 256 * 256) (m % 256)) r))
        (or_high_low n hn)
    ∙ ap (λ k. feed rest (headed command n k r)) (or_high_low m hm)

feed-frame_head :
    (command n m : ℕ) (rest : Bytes) (r : VisionReader)
    → r.within_padding ≡ true
    → r.remaining_command ≡ some 5
    → n < 65536
    → m < 65536
    → feed (frame_head command n m ++ rest) r ≡ feed rest (headed command n m r)
feed-frame_head command n m rest r w c hn hm =
    ap (λ k. feed (frame_head command n m ++ rest) (record r { remaining_command = k })) c
    ∙ feed-header_bytes command n m rest r w hn hm

-- A frame gives its content, and leaves the reader between frames.
pub feed-frame :
    (command : ℕ) (d pad rest : Bytes) (r : VisionReader)
    → r.within_padding ≡ true
    → r.remaining_command ≡ some 5
    → length d < 65536
    → length pad < 65536
    → feed (frame_head command (length d) (length pad) ++ (d ++ (pad ++ rest))) r
      ≡ prepend d (feed rest (between command r))
feed-frame command d pad rest r w c hd hp =
    feed-frame_head command (length d) (length pad) (d ++ (pad ++ rest)) r w c hd hp
    ∙ feed_content (length d) 0 (d ++ (pad ++ rest)) (headed command (length d) (length pad) r) w
        refl (ap some (omega arith)) (omega (arith, length-append d (pad ++ rest)))
    ∙ rw (take-append (length d) d (pad ++ rest) refl, drop-append (length d) d (pad ++ rest) refl)
        (ap (prepend d) (
          feed_padding (length pad) 0 (pad ++ rest) (headed command 0 (length pad) r) w refl refl
            (ap some (omega arith)) (omega (arith, length-append pad rest))
          ∙ rw (drop-append (length pad) pad rest refl) refl))

-- What a call of the writer in padding mode puts out, for content of any length.
module _ {G : Type 0} (uniform : ℕ → G → ℕ × G) where
  length-random_bytes : (n : ℕ) (g : G) → length (random_bytes uniform n g).0 ≡ n
  unfolding random_bytes
  length-random_bytes zero g = refl
  length-random_bytes (suc n) g = ap suc (length-random_bytes n (uniform 255 g).1)

  -- A frame of this content, and the bytes in front of it.
  pub data IsFramed : VisionWriter G → Bytes → ℕ → Bytes × VisionWriter G → Type 0 where
    is_framed :
        {w : VisionWriter G} {d : Bytes} {command : ℕ} (pad : Bytes) (g : G)
        → length pad < 65536
        → IsFramed w d command (
          (if w.uuid_written then [] else w.uuid)
              ++ (frame_head command (length d) (length pad) ++ (d ++ pad)),
          record w { uuid_written = true; rng = g },
        )

  clamp_bound : (h c p : ℕ) → clamp h c p < 65536
  clamp_bound h c p = elim (Bool-cases (ltb (max_frame_size - h - c) p)) [
    | inl e ↦ rw e (omega arith)
    | inr e ↦ rw e (omega (arith, ltb-false _ _ e))
  ]

  padding-IsFramed :
      (w : VisionWriter G) (d : Bytes) (command : ℕ) (long : Bool)
      → IsFramed w d command (padding uniform w d command long)
  unfolding padding
  padding-IsFramed w d command long =
      let n = padding_len uniform w d long in
      let drawn = random_bytes uniform n (draw_padding uniform (length d) long w.rng).1 in
      let long_enough = length-random_bytes n (draw_padding uniform (length d) long w.rng).1 in
      subst
        (λ k. IsFramed w d command (
          (if w.uuid_written then [] else w.uuid)
              ++ (frame_head command (length d) k ++ (d ++ drawn.0)),
          record w { uuid_written = true; rng = drawn.1 },
        ))
        long_enough
        (is_framed drawn.0 drawn.1 (
          subst (λ k. k < 65536) (sym long_enough)
            (clamp_bound (header_size uniform w) (length d)
              (draw_padding uniform (length d) long w.rng).0)))

  -- A call in padding mode: one more frame, or the last one, behind which all is passed on.
  pub data IsWritten : VisionWriter G → Bytes → Processed uniform → Type 0 where
    goes_on :
        {w : VisionWriter G} {d : Bytes} {p : Bytes × VisionWriter G} (ctx : Option VisionContext)
        → IsFramed w d cmd_continue p
        → IsWritten w d (record { output = p.0; writer = p.1; context = ctx })
    ends :
        {w : VisionWriter G} {d : Bytes} {p : Bytes × VisionWriter G} (command : ℕ) (direct : Bool)
        (ctx : Option VisionContext)
        → (command == cmd_continue) ≡ false
        → IsFramed (record w { is_padding = false; direct_copy = direct }) d command p
        → IsWritten w d (record { output = p.0; writer = p.1; context = ctx })

  choose_padding-IsWritten :
      (w : VisionWriter G) (ctx : Option VisionContext) (d : Bytes)
      → w.direct_copy ≡ false
      → IsWritten w d (choose_padding uniform w ctx d)
  choose_padding-IsWritten w none d h = goes_on none (padding-IsFramed w d cmd_continue false)
  choose_padding-IsWritten w (some ctx) d h =
      elim (Bool-cases (is_application_data uniform ctx d)) [
        | inl app ↦ elim (Bool-cases ctx.enable_xtls) [
          | inl x ↦
              simp (app, x)
                (ends cmd_direct true (some ctx) refl (padding-IsFramed _ d cmd_direct true))
          | inr x ↦ simp (app, x) (last cmd_end true refl)
        ]
        | inr app ↦ elim (Bool-cases (not ctx.is_tls12_or_above && leb ctx.packets_to_filter 1)) [
          | inl x ↦ simp (app, x) (last cmd_end ctx.is_tls refl)
          | inr x ↦
              simp (app, x) (goes_on (some ctx) (padding-IsFramed w d cmd_continue ctx.is_tls))
        ]
      ]
    where
      last :
          (command : ℕ) (long : Bool)
          → (command == cmd_continue) ≡ false
          → let p = padding uniform (record w { is_padding = false }) d command long in
            IsWritten w d (record { output = p.0; writer = p.1; context = some ctx })
      last command long ne =
          ends command w.direct_copy (some ctx) ne
            (padding-IsFramed (record w { is_padding = false }) d command long)

  pub process-IsWritten :
      (b : ℕ) (bs : Bytes) (w : VisionWriter G) (ctx : Option VisionContext)
      → w.is_padding ≡ true
      → w.direct_copy ≡ false
      → IsWritten w (b ∷ bs) (process uniform w ctx (b ∷ bs))
  unfolding process
  process-IsWritten b bs w ctx pad raw =
      simp (raw, pad) (choose_padding-IsWritten w (filtered uniform ctx (b ∷ bs)) (b ∷ bs) raw)

  -- A writer that is out of the padding mode passes all on.
  pub process_raw :
      (d : Bytes) (w : VisionWriter G) (ctx : Option VisionContext)
      → w.is_padding ≡ false
      → ((process uniform w ctx d).output ≡ d)
        × ((process uniform w ctx d).writer.is_padding ≡ false)
  unfolding process
  process_raw [] w ctx h = (refl, h)
  process_raw (b ∷ bs) w ctx h = elim (Bool-cases w.direct_copy) [
    | inl raw ↦ simp (raw, h) (refl, refl)
    | inr raw ↦ simp (raw, h) (refl, refl)
  ]
