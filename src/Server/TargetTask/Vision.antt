-- ===== src/Server/TargetTask/Vision.antt =====
-- What came from the target in the reader of the client
-- (src/server/vless_connection_target_task.cpp, src/proxy/vless/vision.cpp).
use cppvless.Common.{
  ℕ, ◌≤◌, ◌<◌, ◌≡◌, refl, sym, ap, ◌∙◌, Bool, true, false, inl, inr, List, [], ◌∷◌, ◌++◌,
  append-nil, append_assoc, arith, Bytes, All, length, joined, Bool-cases, if◌then◌else◌, Option,
}
use cppvless.Vision.Context.{VisionContext, full_header_size}
use cppvless.Vision.Reader.{new_reader}
use cppvless.Vision.Reader.Segments.{process_all}
use cppvless.Vision.Writer.{VisionWriter, new_writer, Processed, process}
use cppvless.Vision.RoundTrip.{write_all, process_all-write_all}
use cppvless.Server.UdpRelay.{send}
use cppvless.Server.UdpRelay.Segments.{received_all}
use cppvless.Server.TcpRelay.{copy}
use cppvless.Server.TcpRelay.Delivered.{
  Target, open_with, shut_with, kept, shutdown, IsFilled, copy_whole, send-kept,
}
use cppvless.Server.TargetTask.{padded, respond_vision}

module _ {G : Type 0} (uniform : ℕ → G → ℕ × G) where
  process_raw :
      (w : VisionWriter G) (ctx : Option VisionContext) (d : Bytes)
      → w.direct_copy ≡ true
      → process uniform w ctx d ≡ record { output = d; writer = w; context = ctx }
  unfolding process
  process_raw w ctx [] h = refl
  process_raw w ctx (b ∷ bs) h = simp h refl

  padded_lem :
      (w : VisionWriter G) (ctx : Option VisionContext) (d : Bytes)
      → padded uniform kept shutdown w ctx d ≡ process uniform w ctx d
  padded_lem w ctx d = elim (Bool-cases w.direct_copy) [
    | inl h ↦ simp h (sym (process_raw w ctx d h))
    | inr h ↦ simp h refl
  ]

  write_all_direct :
      (ds : List Bytes) (w : VisionWriter G) (ctx : Option VisionContext)
      → w.direct_copy ≡ true
      → write_all uniform w ctx ds ≡ joined ds
  unfolding write_all
  write_all_direct [] w ctx h = refl
  write_all_direct (d ∷ ds) w ctx h =
      ap (λ p. p.output ++ write_all uniform p.writer p.context ds) (process_raw w ctx d h)
      ∙ ap (λ x. d ++ x) (write_all_direct ds w ctx h)

  -- The rest of the loop, behind one call of the writer.
  abbrev after : List Bytes → Target → Processed uniform → Bool × Target
  after ds t p =
      let sent = send kept t p.output in
      if sent.0
      then (if p.writer.direct_copy
          then copy kept shutdown (received_all ds) sent.1
          else respond_vision uniform kept shutdown p.writer p.context (received_all ds) sent.1)
      else (false, sent.1)

  respond_vision_received :
      (d : Bytes) (ds : List Bytes) (w : VisionWriter G) (ctx : Option VisionContext) (t : Target)
      → respond_vision uniform kept shutdown w ctx (received_all (d ∷ ds)) t
        ≡ after ds t (process uniform w ctx d)
  unfolding respond_vision
  respond_vision_received d ds w ctx t = ap (after ds t) (padded_lem w ctx d)

  respond_vision_whole :
      (ds : List Bytes) (w : VisionWriter G) (ctx : Option VisionContext) (t : Bytes)
      → All IsFilled ds
      → respond_vision uniform kept shutdown w ctx (received_all ds) (open_with t)
        ≡ (true, shut_with (t ++ write_all uniform w ctx ds))
  unfolding write_all
  respond_vision_whole [] w ctx t h =
      unfold respond_vision in ap (λ x. (true, shut_with x)) (sym (append-nil t))
  respond_vision_whole (d ∷ ds) w ctx t h =
      let p = process uniform w ctx d in
      let whole = append_assoc t p.output (write_all uniform p.writer p.context ds) in
      respond_vision_received d ds w ctx (open_with t)
      ∙ rw (send-kept t p.output) (elim (Bool-cases p.writer.direct_copy) [
        | inl r ↦ simp r (
            copy_whole ds (t ++ p.output) h.1
            ∙ ap (λ x. (true, shut_with ((t ++ p.output) ++ x)))
                (sym (write_all_direct ds p.writer p.context r))
            ∙ ap (λ x. (true, shut_with x)) whole)
        | inr r ↦ simp r (
            respond_vision_whole ds p.writer p.context (t ++ p.output) h.1
            ∙ ap (λ x. (true, shut_with x)) whole)
      ])

  -- The Vision branch of a new session, to a client that has nothing yet.
  abbrev pub responded : Bytes → G → Option VisionContext → List Bytes → Bool × Target
  responded uuid g sent ds =
      respond_vision uniform kept shutdown (new_writer uuid g) sent (received_all ds) (open_with [])

  -- If the client takes every write, the Vision branch of `targetTask` ends normally and shuts down
  -- the write side, and a new reader of the client with the same UUID gets from it exactly what was
  -- read from the target, however the stream is cut on the way, if its first piece has the first
  -- header. No read from the target is empty, and each is below 65536 bytes.
  pub respond_vision-process_all :
      (uuid d : Bytes) (ds cs : List Bytes) (c : Bytes) (g : G) (sent seen : Option VisionContext)
      → let done =
          respond_vision uniform kept shutdown
            (new_writer uuid g)
            sent
            (received_all (d ∷ ds))
            (open_with []) in
        length uuid ≡ 16
        → All IsFilled (d ∷ ds)
        → All (λ x. length x < 65536) (d ∷ ds)
        → joined (c ∷ cs) ≡ done.1.bytes
        → full_header_size ≤ length c
        → (done.0 ≡ true)
          × (done.1.shut ≡ true)
          × (process_all (new_reader uuid) seen (c ∷ cs) ≡ joined (d ∷ ds))
  respond_vision-process_all uuid d ds cs c g sent seen hu f hs stream hc =
      let whole = respond_vision_whole (d ∷ ds) (new_writer uuid g) sent [] f in
      (
        ap (λ x. x.0) whole,
        ap (λ x. x.1.shut) whole,
        process_all-write_all uniform uuid d ds cs c g sent seen hu (filled d f.0) hs
            (stream ∙ ap (λ x. x.1.bytes) whole) hc,
      )
    where
      filled : (d : Bytes) → IsFilled d → 1 ≤ length d
      filled [] h = absurd h
      filled (b ∷ bs) h = omega arith
