-- ===== src/Server/UdpRelay/Segments.antt =====
-- However the client's stream is cut into reads, the target gets the packets that were framed.
use cppvless.Common.{
  joined, ℕ, zero, suc, ◌+◌, ◌/◌, ◌%◌, ◌≤◌, ◌<◌, ◌≡◌, refl, sym, ap, ◌∙◌, Bool, true, List, [], ◌∷◌,
  ◌++◌, inl, inr, append-nil, append_assoc, arith, Bytes, All, length, length-append, length-drop,
  take, drop, take-append, take-append-drop, drop-append, take-append_le, drop-append_le, ltb,
  ltb→lt, lt→ltb, ltb-false, le→ltb_false, Bool-cases, none, some,
}
use cppvless.Common.Bits.{or_high_low}
use cppvless.Coro.BufferedStream.{RecvResult, received}
use cppvless.Server.UdpRelay.{next_packet, send, drain, relay, frame}

abbrev pub received_all : List Bytes → List RecvResult
received_all [] = []
received_all (c ∷ cs) = received c ∷ received_all cs

pub next_packet-nil : next_packet [] ≡ none
unfolding next_packet
next_packet-nil = refl

module _ {T : Type 0} (write : T → Bytes → Bool × T) where
  abbrev pub IsFramable : Bytes → Type 0
  IsFramable d = length d < 65536

  abbrev pub frames : List Bytes → Bytes
  frames [] = []
  frames (d ∷ ds) = frame write d ++ frames ds

  -- Every packet that is not empty is written, in order.
  abbrev pub deliver : List Bytes → T → T
  deliver [] t = t
  deliver (d ∷ ds) t = deliver ds (send write t d).1

  deliver-append : (xs ys : List Bytes) (t : T) → deliver (xs ++ ys) t ≡ deliver ys (deliver xs t)
  deliver-append [] ys t = refl
  deliver-append (x ∷ xs) ys t = deliver-append xs ys (send write t x).1

  pub next_packet-frame :
      (d rest : Bytes) → IsFramable d → next_packet (frame write d ++ rest) ≡ some (d, rest)
  unfolding next_packet
  next_packet-frame d rest h =
      rw
        (
          or_high_low (length d) h,
          le→ltb_false (length (d ++ rest)) (length d) (omega (arith, length-append d rest)),
          take-append (length d) d rest refl,
          drop-append (length d) d rest refl,
        )
        refl

  -- A part of a frame is no packet yet.
  next_packet-part :
      (p q d rest : Bytes)
      → IsFramable d
      → p ++ q ≡ frame write d ++ rest
      → length p < 2 + length d
      → next_packet p ≡ none
  unfolding next_packet
  next_packet-part [] q d rest h e less = refl
  next_packet-part (hi ∷ []) q d rest h e less = refl
  next_packet-part (hi ∷ lo ∷ p) q d rest h e less =
      let is_hi : hi ≡ length d / 256 % 256 = cc in
      let is_lo : lo ≡ length d % 256 = cc in
      rw (is_hi, is_lo, or_high_low (length d) h, lt→ltb (length p) (length d) (omega arith)) refl

  -- The packets that have arrived, and what is left.
  data Unframes : Bytes → List Bytes → Bytes → Type 0 where
    stop : {p : Bytes} → next_packet p ≡ none → Unframes p [] p
    more :
        {p rest left : Bytes} {d : Bytes} {ds : List Bytes}
        → next_packet p ≡ some (d, rest)
        → length rest < length p
        → Unframes rest ds left
        → Unframes p (d ∷ ds) left

  drain-Unframes :
      {p left : Bytes} {ds : List Bytes} (fuel : ℕ) (t : T)
      → ((t : T) (d : Bytes) → (write t d).0 ≡ true)
      → length p ≤ fuel
      → Unframes p ds left
      → drain write fuel p t ≡ (true, left, deliver ds t)
  unfolding drain
  drain-Unframes zero t ok le (stop e) = refl
  drain-Unframes (suc fuel) t ok le (stop e) = rw (e, drain) refl
  drain-Unframes zero t ok le (more e less u) = absurd (omega arith)
  drain-Unframes (suc fuel) t ok le (more {d = d} e less u) =
      rw (e, drain, sent d) (drain-Unframes fuel (send write t d).1 ok (omega arith) u)
    where
      sent : (d : Bytes) → (send write t d).0 ≡ true
      sent [] = refl
      sent (b ∷ bs) = ok t (b ∷ bs)

  -- What has arrived of a stream of frames: some whole frames, and a part of the next one.
  record Arrived (p q : Bytes) (ds : List Bytes) : Type 0 where
    whole : List Bytes
    due : List Bytes
    left : Bytes
    same : ds ≡ whole ++ due
    unframes : Unframes p whole left
    rest : left ++ q ≡ frames due
    partial : next_packet left ≡ none
    framable : All IsFramable due

  arrived :
      (ds : List Bytes) (p q : Bytes) → All IsFramable ds → p ++ q ≡ frames ds → Arrived p q ds
  arrived [] [] q h e = record {
    whole = [];
    due = [];
    left = [];
    same = refl;
    unframes = stop next_packet-nil;
    rest = e;
    partial = next_packet-nil;
    framable = tt;
  }
  arrived [] (x ∷ p) q h e = cc
  arrived (d ∷ ds) p q h e = elim (Bool-cases (ltb (length p) (2 + length d))) [
    | inl short ↦
        let none_yet = next_packet-part p q d (frames ds) h.0 e (ltb→lt _ _ short) in
        record {
          whole = [];
          due = d ∷ ds;
          left = p;
          same = refl;
          unframes = stop none_yet;
          rest = e;
          partial = none_yet;
          framable = h;
        }
    | inr long ↦
        let n = 2 + length d in
        let le : n ≤ length p = ltb-false _ _ long in
        let front : take n p ≡ frame write d =
          sym (take-append_le n p q le)
          ∙ ap (take n) e
          ∙ take-append n (frame write d) (frames ds) (omega arith) in
        let behind : drop n p ++ q ≡ frames ds =
          sym (drop-append_le n p q le)
          ∙ ap (drop n) e
          ∙ drop-append n (frame write d) (frames ds) (omega arith) in
        let split : frame write d ++ drop n p ≡ p =
          ap (λ f. f ++ drop n p) (sym front) ∙ take-append-drop n p in
        let a = arrived ds (drop n p) q h.1 behind in
        record {
          whole = d ∷ a.whole;
          due = a.due;
          left = a.left;
          same = ap (λ xs. d ∷ xs) a.same;
          unframes =
              more (ap next_packet (sym split) ∙ next_packet-frame d (drop n p) h.0)
                (omega (arith, length-drop n p)) a.unframes;
          rest = a.rest;
          partial = a.partial;
          framable = a.framable;
        }
  ]

  nothing_due :
      (ds : List Bytes) (p : Bytes)
      → All IsFramable ds
      → p ++ [] ≡ frames ds
      → next_packet p ≡ none
      → ds ≡ []
  nothing_due [] p h e none_yet = refl
  nothing_due (d ∷ ds) p h e none_yet =
      let found = ap next_packet (sym (append-nil p) ∙ e) ∙ next_packet-frame d (frames ds) h.0 in
      cc

  -- If every write succeeds and the pending bytes with all that is read are whole frames of packets
  -- of less than 65536 bytes, the target gets exactly these packets, less the empty ones, and the
  -- session ends normally, wherever the reads cut the stream.
  pub relay-frames :
      (cs : List Bytes) (pending : Bytes) (ds : List Bytes) (t : T)
      → ((t : T) (d : Bytes) → (write t d).0 ≡ true)
      → All (λ d. length d < 65536) ds
      → pending ++ joined cs ≡ frames ds
      → relay write pending (received_all cs) t ≡ (true, deliver ds t)
  unfolding relay
  relay-frames [] pending ds t ok h e =
      let a = arrived ds pending [] h e in
      let end' = nothing_due a.due a.left a.framable a.rest a.partial in
      rw (drain-Unframes (length pending) t ok (omega arith) a.unframes) (
        ap (λ xs. (true, deliver xs t))
          (sym (append-nil a.whole) ∙ ap (λ xs. a.whole ++ xs) (sym end') ∙ sym a.same))
  relay-frames (c ∷ cs) pending ds t ok h e =
      let a = arrived ds pending (c ++ joined cs) h e in
      rw (drain-Unframes (length pending) t ok (omega arith) a.unframes) (
        relay-frames cs (a.left ++ c) a.due (deliver a.whole t) ok a.framable
          (append_assoc a.left c (joined cs) ∙ a.rest)
        ∙ ap (λ s. (true, s))
            (sym (deliver-append a.whole a.due t) ∙ ap (λ xs. deliver xs t) (sym a.same)))
