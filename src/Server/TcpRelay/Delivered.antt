-- ===== src/Server/TcpRelay/Delivered.antt =====
-- The target gets what the other side put into its writer.
use cppvless.Common.{
  ℕ, ◌≤◌, ◌<◌, ◌≡◌, refl, sym, ap, ◌∙◌, Bool, true, false, inl, inr, List, [], ◌∷◌, ◌++◌,
  append-nil, append_assoc, arith, Bytes, All, length, joined, Bool-cases, if◌then◌else◌, Option,
}
use cppvless.Vision.Context.{VisionContext, full_header_size}
use cppvless.Vision.Reader.{VisionReader, new_reader, Processed, process}
use cppvless.Vision.Reader.Segments.{process_all}
use cppvless.Vision.Writer.{new_writer}
use cppvless.Vision.RoundTrip.{write_all, process_all-write_all}
use cppvless.Server.UdpRelay.{send}
use cppvless.Server.UdpRelay.Segments.{received_all}
use cppvless.Server.TcpRelay.{unpadded, copy, relay_vision, forward_vision}

-- What was written, and whether the write side was shut down.
pub record Target : Type 0 where
  pub bytes : Bytes
  pub shut : Bool

abbrev pub open_with : Bytes → Target
open_with bytes = record { bytes = bytes; shut = false }

abbrev pub shut_with : Bytes → Target
shut_with bytes = record { bytes = bytes; shut = true }

-- A target that takes every write, and keeps the bytes. A write of nothing has the result 0.
abbrev pub kept : Target → Bytes → Bool × Target
kept t [] = (false, t)
kept t (b ∷ bs) = (true, record t { bytes = t.bytes ++ (b ∷ bs) })

abbrev pub shutdown : Target → Target
shutdown t = record t { shut = true }

abbrev pub IsFilled : Bytes → Type 0
IsFilled [] = ⊥
IsFilled (b ∷ bs) = Unit

pub copy_whole :
    (cs : List Bytes) (t : Bytes)
    → All IsFilled cs
    → copy kept shutdown (received_all cs) (open_with t) ≡ (true, shut_with (t ++ joined cs))
unfolding copy
copy_whole [] t h = ap (λ x. (true, shut_with x)) (sym (append-nil t))
copy_whole ([] ∷ cs) t h = absurd h.0
copy_whole ((b ∷ bs) ∷ cs) t h =
    copy_whole cs (t ++ (b ∷ bs)) h.1
    ∙ ap (λ x. (true, shut_with x)) (append_assoc t (b ∷ bs) (joined cs))

process_direct :
    (r : VisionReader) (ctx : Option VisionContext) (d : Bytes)
    → r.direct_copy ≡ true
    → process r ctx d ≡ record { output = d; reader = r; context = ctx }
unfolding process
process_direct r ctx [] h = refl
process_direct r ctx (b ∷ bs) h = simp h refl

process_all_direct :
    (cs : List Bytes) (r : VisionReader) (ctx : Option VisionContext)
    → r.direct_copy ≡ true
    → process_all r ctx cs ≡ joined cs
unfolding process_all
process_all_direct [] r ctx h = refl
process_all_direct (c ∷ cs) r ctx h =
    ap (λ p. p.output ++ process_all p.reader p.context cs) (process_direct r ctx c h)
    ∙ ap (λ x. c ++ x) (process_all_direct cs r ctx h)

process_all_cons :
    (c : Bytes) (cs : List Bytes) (r : VisionReader) (ctx : Option VisionContext)
    → let p = process r ctx c in
      p.output ++ process_all p.reader p.context cs ≡ process_all r ctx (c ∷ cs)
unfolding process_all
process_all_cons c cs r ctx = refl

unpadded_lem :
    (r : VisionReader) (ctx : Option VisionContext) (d : Bytes) → unpadded r ctx d ≡ process r ctx d
unpadded_lem r ctx d = elim (Bool-cases r.direct_copy) [
  | inl h ↦ simp h (sym (process_direct r ctx d h))
  | inr h ↦ simp h refl
]

pub send-kept : (t d : Bytes) → send kept (open_with t) d ≡ (true, open_with (t ++ d))
send-kept t [] = ap (λ x. (true, open_with x)) (sym (append-nil t))
send-kept t (b ∷ bs) = refl

-- The rest of the loop, behind one call of the reader.
abbrev after : List Bytes → Target → Processed → Bool × Target
after cs t p =
    let w = send kept t p.output in
    if w.0
    then (if p.reader.direct_copy
        then copy kept shutdown (received_all cs) w.1
        else relay_vision kept shutdown p.reader p.context (received_all cs) w.1)
    else (false, w.1)

relay_vision_received :
    (c : Bytes) (cs : List Bytes) (r : VisionReader) (ctx : Option VisionContext) (t : Target)
    → relay_vision kept shutdown r ctx (received_all (c ∷ cs)) t ≡ after cs t (process r ctx c)
unfolding relay_vision
relay_vision_received c cs r ctx t = ap (after cs t) (unpadded_lem r ctx c)

relay_vision_whole :
    (cs : List Bytes) (r : VisionReader) (ctx : Option VisionContext) (t : Bytes)
    → All IsFilled cs
    → relay_vision kept shutdown r ctx (received_all cs) (open_with t)
      ≡ (true, shut_with (t ++ process_all r ctx cs))
unfolding process_all
relay_vision_whole [] r ctx t h =
    unfold relay_vision in ap (λ x. (true, shut_with x)) (sym (append-nil t))
relay_vision_whole (c ∷ cs) r ctx t h =
    let p = process r ctx c in
    let whole = append_assoc t p.output (process_all p.reader p.context cs) in
    relay_vision_received c cs r ctx (open_with t)
    ∙ rw (send-kept t p.output) (elim (Bool-cases p.reader.direct_copy) [
      | inl d ↦ simp d (
          copy_whole cs (t ++ p.output) h.1
          ∙ ap (λ x. (true, shut_with ((t ++ p.output) ++ x)))
              (sym (process_all_direct cs p.reader p.context d))
          ∙ ap (λ x. (true, shut_with x)) whole)
      | inr d ↦ simp d (
          relay_vision_whole cs p.reader p.context (t ++ p.output) h.1
          ∙ ap (λ x. (true, shut_with x)) whole)
    ])

-- If the target takes every write, and what is left of the handshake and the reads after it,
-- none of them empty, carry what a writer with the same UUID made of some chunks (the first not
-- empty, all below 65536 bytes), the target gets exactly the chunks, its write side is shut down, and the relay ends normally.
-- What is left of the handshake has the 21 bytes of the first header.
pub forward_vision-write_all :
    {G : Type 0} (uniform : ℕ → G → ℕ × G) (uuid d : Bytes) (ds cs : List Bytes) (c : Bytes) (g : G)
    (sent seen : Option VisionContext)
    → length uuid ≡ 16
    → 1 ≤ length d
    → All (λ x. length x < 65536) (d ∷ ds)
    → joined (c ∷ cs) ≡ write_all uniform (new_writer uuid g) sent (d ∷ ds)
    → full_header_size ≤ length c
    → All IsFilled cs
    → forward_vision kept shutdown (new_reader uuid) seen c (received_all cs) (open_with [])
      ≡ (true, shut_with (joined (d ∷ ds)))
unfolding forward_vision
forward_vision-write_all uniform uuid d ds cs [] g sent seen hu hd hs stream hc f =
    absurd (omega arith)
forward_vision-write_all uniform uuid d ds cs (b ∷ bs) g sent seen hu hd hs stream hc f =
    let p = process (new_reader uuid) seen (b ∷ bs) in
    rw (send-kept [] p.output) (
      relay_vision_whole cs p.reader p.context p.output f
      ∙ ap (λ x. (true, shut_with x))
          (process_all_cons (b ∷ bs) cs (new_reader uuid) seen
            ∙ process_all-write_all uniform uuid d ds cs (b ∷ bs) g sent seen hu hd hs stream hc))
