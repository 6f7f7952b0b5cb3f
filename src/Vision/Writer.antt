-- ===== src/Vision/Writer.antt =====
-- `VisionWriter` of src/proxy/vless/vision.cpp: it wraps the bytes of the target in padding frames.
-- The random engine is an argument: `uniform b g` draws from 0 to b.
pub mod Frames
use cppvless.Common.{
  ℕ, zero, suc, ◌+◌, ◌-◌, ◌*◌, ◌/◌, ◌%◌, Bool, true, false, not, ◌&&◌, [], ◌∷◌, ◌++◌, Bytes, length,
  ltb, leb, ◌==◌, if◌then◌else◌, equal, Option, none, some,
}
use cppvless.Vision.Context.{
  VisionContext, cmd_continue, cmd_end, cmd_direct, max_frame_size, full_header_size,
  short_header_size, application_data_start, starts_with,
}
use cppvless.Vision.TlsFilter.{filter_tls}
use cppvless.Vision.Records.{is_complete_record}

pub record VisionWriter (G : Type 0) : Type 0 where
  pub uuid : Bytes
  pub uuid_written : Bool
  pub is_padding : Bool
  pub direct_copy : Bool
  pub rng : G

abbrev pub new_writer : {G : Type 0} → Bytes → G → VisionWriter G
new_writer uuid g = record {
  uuid = uuid;
  uuid_written = false;
  is_padding = true;
  direct_copy = false;
  rng = g;
}

-- The command, then the two lengths, big-endian and cut to 16 bits.
abbrev pub frame_head : ℕ → ℕ → ℕ → Bytes
frame_head command content_len padding_len =
    command
    ∷ content_len / 256 % 256
    ∷ content_len % 256
    ∷ padding_len / 256 % 256
    ∷ padding_len % 256
    ∷ []

-- `maxPadding` of the source may be negative. The lengths then come out as here, where it is 0:
-- a positive padding is cut to 0, and a padding of 0 stays.
abbrev pub clamp : ℕ → ℕ → ℕ → ℕ
clamp header_size content_len padding_len =
    let max_padding = max_frame_size - header_size - content_len in
    if ltb max_padding padding_len then max_padding else padding_len

module _ {G : Type 0} (uniform : ℕ → G → ℕ × G) where
  -- `paddingLen` before it is clamped, by the test seed 900, 500, 900, 256.
  unfoldable pub draw_padding : ℕ → Bool → G → ℕ × G
  draw_padding content_len long g =
      let (short_draw, g') = uniform 256 g in
      let (long_draw, g'') = uniform 500 g in
      if ltb content_len 900 && long then (long_draw + 900 - content_len, g'') else (short_draw, g')

  -- The loop that fills the padding with random bytes.
  unfoldable pub random_bytes : ℕ → G → Bytes × G
  random_bytes zero g = ([], g)
  random_bytes (suc n) g =
      let (b, g') = uniform 255 g in let (bs, g'') = random_bytes n g' in (b ∷ bs, g'')

  abbrev pub header_size : VisionWriter G → ℕ
  header_size w = if w.uuid_written then short_header_size else full_header_size

  abbrev pub padding_len : VisionWriter G → Bytes → Bool → ℕ
  padding_len w d long = clamp (header_size w) (length d) (draw_padding (length d) long w.rng).0

  unfoldable pub padding : VisionWriter G → Bytes → ℕ → Bool → Bytes × VisionWriter G
  unfolding draw_padding random_bytes
  padding w d command long =
      let n = padding_len w d long in
      let (pad, g) = random_bytes n (draw_padding (length d) long w.rng).1 in
      let opening = if w.uuid_written then [] else w.uuid in
      (
        opening ++ (frame_head command (length d) n ++ (d ++ pad)),
        record w { uuid_written = true; rng = g },
      )

  pub record Processed : Type 0 where
    pub output : Bytes
    pub writer : VisionWriter G
    pub context : Option VisionContext

  abbrev framed : Option VisionContext → Bytes × VisionWriter G → Processed
  framed ctx (frame, w) = record { output = frame; writer = w; context = ctx }

  abbrev filtered : Option VisionContext → Bytes → Option VisionContext
  filtered none d = none
  filtered (some ctx) d = if ltb 0 ctx.packets_to_filter then some (filter_tls ctx d) else some ctx

  abbrev is_application_data : VisionContext → Bytes → Bool
  is_application_data ctx d =
      ctx.is_tls && leb 6 (length d) && starts_with application_data_start d && is_complete_record d

  -- The choice of the command, once the context is known.
  abbrev choose : VisionWriter G → VisionContext → Bytes → Processed
  choose w ctx d =
      if is_application_data ctx d
      then (if ctx.enable_xtls
          then framed (some ctx)
              (padding (record w { is_padding = false; direct_copy = true }) d cmd_direct true)
          else framed (some ctx) (padding (record w { is_padding = false }) d cmd_end true))
      else if not ctx.is_tls12_or_above && leb ctx.packets_to_filter 1
      then framed (some ctx) (padding (record w { is_padding = false }) d cmd_end ctx.is_tls)
      else framed (some ctx) (padding w d cmd_continue ctx.is_tls)

  abbrev choose_padding : VisionWriter G → Option VisionContext → Bytes → Processed
  choose_padding w (some ctx) d = choose w ctx d
  choose_padding w none d = framed none (padding w d cmd_continue false)

  unfoldable pub process : VisionWriter G → Option VisionContext → Bytes → Processed
  unfolding padding filter_tls is_complete_record
  process w ctx [] = record { output = []; writer = w; context = ctx }
  process w ctx (b ∷ bs) =
      let d = b ∷ bs in
      let ctx' = filtered ctx d in
      if w.direct_copy
      then record { output = d; writer = w; context = ctx }
      else if not w.is_padding
      then record { output = d; writer = record w { direct_copy = true }; context = ctx' }
      else choose_padding w ctx' d
