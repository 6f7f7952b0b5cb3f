-- ===== src/Vision/Reader/Segments.antt =====
-- How the stream is cut into reads makes no difference to what the reader gives, once the first
-- read has the whole of the first header.
use cppvless.Common.{
  joined, ℕ, ◌+◌, ◌*◌, ◌≤◌, ◌<◌, ◌≡◌, refl, sym, ap, subst, ◌∙◌, Bool, true, false, ◌&&◌, inl, inr,
  List, [], ◌∷◌, ◌++◌, arith, Bytes, length, length-drop, take, drop, drop-append_le, leb, le→leb,
  equal, equal_refl, if◌then◌else◌, Bool-cases, Option, some,
}
use cppvless.Vision.Context.{VisionContext, full_header_size}
use cppvless.Vision.Reader.{
  VisionReader, new_reader, header_byte, loop, fuel_for, process, Processed, is_initial, finish,
}
use cppvless.Vision.Reader.Feed.{feed, ready, advance, feed_passing, feed-append, is_busy}
use cppvless.Vision.Reader.Loop.{loop-feed}

-- The UUID has been seen, and direct copy is on only behind the padding.
pub record IsStarted (r : VisionReader) : Type 0 where
  pub started : is_initial r ≡ false
  pub behind : r.direct_copy ≡ true → r.within_padding ≡ false

ready-IsStarted : (r : VisionReader) → IsStarted r → IsStarted (ready r)
unfolding ready
ready-IsStarted r s = record {
  started = ground (arith, s.started);
  behind = ground (arith, s.behind);
}

advance-IsStarted :
    (r : VisionReader) (b : ℕ) → r.within_padding ≡ true → IsStarted r → IsStarted (advance r b)
unfolding advance header_byte
advance-IsStarted r b w s = record {
  started = ground (arith, s.started);
  behind = ground (arith, s.behind);
}

feed-IsStarted : (bs : Bytes) (r : VisionReader) → IsStarted r → IsStarted (feed bs r).1
unfolding feed
feed-IsStarted [] r s = s
feed-IsStarted (b ∷ bs) r s = elim (Bool-cases (ready r).within_padding) [
  | inl w ↦ simp w (
      feed-IsStarted bs (advance (ready r) b)
        (advance-IsStarted (ready r) b w (ready-IsStarted r s)))
  | inr w ↦ simp w (ready-IsStarted r s)
]

-- Two readers that will give the same from here on.
abbrev SameFuture : VisionReader → VisionReader → Type 0
SameFuture q r = (ys : Bytes) → (feed ys q).0 ≡ (feed ys r).0

-- What `process` gives is what the bytes give, and so will be all that follows.
record Follows (xs : Bytes) (r : VisionReader) (p : Processed) : Type 0 where
  given : p.output ≡ (feed xs r).0
  future : SameFuture p.reader (feed xs r).1
  next : IsStarted p.reader

looped :
    (b : ℕ) (bs : Bytes) (r : VisionReader)
    → r.within_padding ≡ true
    → loop (fuel_for (b ∷ bs)) (b ∷ bs) r ≡ feed (b ∷ bs) r
looped b bs r w = loop-feed _ (b ∷ bs) r w (enough (is_busy r))
  where
    enough : (x : Bool) → 2 * length (b ∷ bs) + (if x then 0 else 1) < fuel_for (b ∷ bs)
    enough true = omega arith
    enough false = omega arith

passing-Follows :
    (xs : Bytes) (r q : VisionReader) (ctx : Option VisionContext)
    → r.within_padding ≡ false
    → q.within_padding ≡ false
    → IsStarted q
    → Follows xs r (record { output = xs; reader = q; context = ctx })
passing-Follows xs r q ctx w v s = record {
  given = rw (feed_passing xs r w);
  future = λ ys. rw (feed_passing ys q v, feed_passing xs r w, feed_passing ys r w);
  next = s;
}

process-Follows :
    (xs : Bytes) (r : VisionReader) (ctx : Option VisionContext)
    → IsStarted r
    → Follows xs r (process r ctx xs)
unfolding process
process-Follows [] r ctx s = record {
  given = unfold feed in refl;
  future = λ ys. unfold feed in refl;
  next = s;
}
process-Follows (b ∷ bs) r ctx s = elim (Bool-cases r.direct_copy) [
  | inl d ↦ simp d (passing-Follows (b ∷ bs) r r ctx (s.behind d) (s.behind d) s)
  | inr d ↦ elim (Bool-cases r.within_padding) [
    | inr w ↦
        simp (d, w)
          (passing-Follows (b ∷ bs) r (record r { within_padding = false; direct_copy = true }) ctx
            w refl (record { started = s.started; behind = λ _. refl }))
    | inl w ↦
        simp (d, w, s.started)
          (subst (λ p. Follows (b ∷ bs) r (finish ctx p)) (sym (looped b bs r w))
            (record { given = refl; future = λ ys. refl; next = feed-IsStarted (b ∷ bs) r s }))
  ]
]

-- The reads of the relay loop, one after the other, and what they give together.
unfoldable pub process_all : VisionReader → Option VisionContext → List Bytes → Bytes
process_all r ctx [] = []
process_all r ctx (c ∷ cs) =
    let p = process r ctx c in p.output ++ process_all p.reader p.context cs

process_all-started :
    (cs : List Bytes) (q r : VisionReader) (ctx : Option VisionContext)
    → IsStarted q
    → SameFuture q r
    → process_all q ctx cs ≡ (feed (joined cs) r).0
unfolding process_all
process_all-started [] q r ctx s same = unfold feed in refl
process_all-started (c ∷ cs) q r ctx s same =
    let f = process-Follows c q ctx s in
    let p = process q ctx c in
    ap (λ o. o ++ process_all p.reader p.context cs) f.given
    ∙ ap (λ o. (feed c q).0 ++ o)
        (process_all-started cs p.reader (feed c q).1 p.context f.next f.future)
    ∙ sym (ap (λ o. o.0) (feed-append c (joined cs) q))
    ∙ same (c ++ joined cs)

-- A reader that has just seen the UUID.
abbrev pub began : Bytes → VisionReader
began uuid = record (new_reader uuid) { remaining_command = some 5 }

began-IsStarted : (uuid : Bytes) → IsStarted (began uuid)
began-IsStarted uuid = record { started = refl; behind = λ e. cc }

process_opening :
    (uuid c : Bytes) (ctx : Option VisionContext)
    → full_header_size ≤ length c
    → take 16 c ≡ uuid
    → process (new_reader uuid) ctx c ≡ finish ctx (feed (drop 16 c) (began uuid))
unfolding process
process_opening uuid [] ctx h e = absurd (omega arith)
process_opening uuid (b ∷ bs) ctx h e = rw opens (
    ap (finish ctx) (loop-feed _ (drop 15 bs) (began uuid) refl (omega (arith, length-drop 15 bs))))
  where
    opens : (leb full_header_size (length (b ∷ bs)) && equal (take 16 (b ∷ bs)) uuid) ≡ true
    opens = rw (le→leb _ _ h, e) (equal_refl uuid)

-- If the first read begins with the UUID and has the first header in full, the output is that of
-- the joined bytes, one at a time: it does not depend on the reads that brought them.
pub process_all-joined :
    (uuid c : Bytes) (cs : List Bytes) (ctx : Option VisionContext)
    → full_header_size ≤ length c
    → take 16 c ≡ uuid
    → process_all (new_reader uuid) ctx (c ∷ cs) ≡ (feed (drop 16 (c ++ joined cs)) (began uuid)).0
unfolding process_all
process_all-joined uuid c cs ctx h e =
    let r = (feed (drop 16 c) (began uuid)).1 in
    rw (process_opening uuid c ctx h e) (
      ap (λ o. (feed (drop 16 c) (began uuid)).0 ++ o)
        (process_all-started cs r r _ (feed-IsStarted (drop 16 c) _ (began-IsStarted uuid))
          (λ ys. refl))
      ∙ sym (ap (λ o. o.0) (feed-append (drop 16 c) (joined cs) (began uuid)))
      ∙ ap (λ d. (feed d (began uuid)).0) (sym (drop-append_le 16 c (joined cs) (omega arith))))
