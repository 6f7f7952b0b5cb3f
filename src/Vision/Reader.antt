-- ===== src/Vision/Reader.antt =====
-- `VisionReader` of src/proxy/vless/vision.cpp: it takes the padding off.
pub mod Feed
pub mod Steps
pub mod Loop
pub mod Segments
use cppvless.Common.{
  ℕ, zero, suc, ◌+◌, ◌-◌, ◌*◌, min, bit_or, Bool, true, false, not, ◌&&◌, ◌||◌, [], ◌∷◌, ◌++◌,
  Bytes, length, take, drop, get_or, ltb, leb, ◌==◌, if◌then◌else◌, equal, Option, none, some,
}
use cppvless.Vision.Context.{
  VisionContext, cmd_continue, cmd_direct, full_header_size, client_handshake_start, starts_with,
}

-- The three counters are -1 (`none`) until the user's UUID has been seen, and not negative after.
pub record VisionReader : Type 0 where
  pub uuid : Bytes
  pub within_padding : Bool
  pub direct_copy : Bool
  pub remaining_command : Option ℕ
  pub remaining_content : Option ℕ
  pub remaining_padding : Option ℕ
  pub current_command : ℕ

abbrev pub new_reader : Bytes → VisionReader
new_reader uuid = record {
  uuid = uuid;
  within_padding = true;
  direct_copy = false;
  remaining_command = none;
  remaining_content = none;
  remaining_padding = none;
  current_command = 0;
}

-- `counter > 0`
abbrev pub positive : Option ℕ → Bool
positive none = false
positive (some n) = ltb 0 n

-- `counter |= byte`; -1 has all bits set.
abbrev or_byte : Option ℕ → ℕ → Option ℕ
or_byte none b = none
or_byte (some n) b = some (bit_or n b)

-- `counter -= n`, for n at most the counter.
abbrev pub minus : Option ℕ → ℕ → Option ℕ
minus none n = none
minus (some m) n = some (m - n)

abbrev pub count : Option ℕ → ℕ
count none = 0
count (some n) = n

-- The switch over `remainingCommand_`, and its decrement.
unfoldable pub header_byte : VisionReader → ℕ → VisionReader
header_byte r b =
    let left = count r.remaining_command in
    if left == 5
    then record r { current_command = b; remaining_command = some 4 }
    else if left == 4
    then record r { remaining_content = some (b * 256); remaining_command = some 3 }
    else if left == 3
    then record r { remaining_content = or_byte r.remaining_content b; remaining_command = some 2 }
    else if left == 2
    then record r { remaining_padding = some (b * 256); remaining_command = some 1 }
    else if left == 1
    then record r { remaining_padding = or_byte r.remaining_padding b; remaining_command = some 0 }
    else record r { remaining_command = some (left - 1) }

-- `while (remainingCommand_ > 0 && pos < data.size())`
unfoldable pub read_header : Bytes → VisionReader → Bytes × VisionReader
unfolding header_byte
read_header [] r = ([], r)
read_header (b ∷ bs) r =
    let rest = read_header bs (header_byte r b) in
    if positive r.remaining_command then rest else (b ∷ bs, r)

-- What one round of the main loop does: it goes on with the bytes left, or stops. It comes with
-- the bytes that it appends to the output.
pub data Round : Type 0 where
  goes_on : Bytes → Bytes → VisionReader → Round
  stops : Bytes → VisionReader → Round

-- Frame complete: another header follows, or all else is passed on as it is.
abbrev frame_done : Bytes → VisionReader → Round
frame_done left r =
    if r.current_command == cmd_continue
    then goes_on [] left (record r { remaining_command = some 5 })
    else stops left (record r {
      within_padding = false;
      direct_copy = if r.current_command == cmd_direct then true else r.direct_copy;
    })

abbrev after_header : Bytes × VisionReader → Round
after_header (left, r) = goes_on [] left r

unfoldable pub round : Bytes → VisionReader → Round
round left r =
    let to_read = min (count r.remaining_content) (length left) in
    let to_skip = min (count r.remaining_padding) (length left) in
    if positive r.remaining_command
    then after_header (read_header left r)
    else if positive r.remaining_content
    then goes_on (take to_read left) (drop to_read left)
        (record r { remaining_content = minus r.remaining_content to_read })
    else if positive r.remaining_padding
    then goes_on [] (drop to_skip left)
        (record r { remaining_padding = minus r.remaining_padding to_skip })
    else frame_done left r

abbrev pub prepend : Bytes → Bytes × VisionReader → Bytes × VisionReader
prepend out (more, r) = (out ++ more, r)

-- `while (pos < data.size())`, from the bytes left on. Two rounds take a byte at least.
unfoldable pub loop : ℕ → Bytes → VisionReader → Bytes × VisionReader
loop zero left r = ([], r)
loop (suc fuel) [] r = ([], r)
loop (suc fuel) (b ∷ bs) r = elim (round (b ∷ bs) r) [
  | goes_on out left r' ↦ prepend out (loop fuel left r')
  | stops out r' ↦ (out, r')
]

abbrev pub fuel_for : Bytes → ℕ
fuel_for left = 2 * length left + 2

-- The detection of a TLS ClientHello in the output.
unfoldable pub detect : Option VisionContext → Bytes → Option VisionContext
detect none output = none
detect (some ctx) output =
    let hello = starts_with client_handshake_start output && get_or output 5 0 == 0x01 in
    if ltb 0 ctx.packets_to_filter && leb 6 (length output)
    then some (record ctx {
      is_tls = if hello then true else ctx.is_tls;
      packets_to_filter = ctx.packets_to_filter - 1;
    })
    else some ctx

pub record Processed : Type 0 where
  pub output : Bytes
  pub reader : VisionReader
  pub context : Option VisionContext

abbrev pub finish : Option VisionContext → Bytes × VisionReader → Processed
finish ctx (out, r) = record { output = out; reader = r; context = detect ctx out }

abbrev pub is_initial : VisionReader → Bool
is_initial r = elim r.remaining_command [
  | none ↦ elim r.remaining_content [
    | none ↦ elim r.remaining_padding [ none ↦ true | some n ↦ false ]
    | some n ↦ false
  ]
  | some n ↦ false
]

abbrev pub pass_through : VisionReader → Option VisionContext → Bytes → Processed
pass_through r ctx data' = record {
  output = data';
  reader = record r { direct_copy = true };
  context = ctx;
}

unfoldable pub process : VisionReader → Option VisionContext → Bytes → Processed
unfolding loop detect
process r ctx [] = record { output = []; reader = r; context = ctx }
process r ctx (b ∷ bs) =
    let data' = b ∷ bs in
    if r.direct_copy
    then record { output = data'; reader = r; context = ctx }
    else if not r.within_padding
    then pass_through r ctx data'
    else if is_initial r
    then (if leb full_header_size (length data') && equal (take 16 data') r.uuid
        then finish ctx
            (loop (fuel_for data') (drop 16 data') (record r { remaining_command = some 5 }))
        else pass_through r ctx data')
    else finish ctx (loop (fuel_for data') data' r)
