-- ===== src/Coro/ByteReader.antt =====
-- The interface `BufferedStream` of include/coro/buffered_stream.h, on which the protocol parsers
-- stand. `Holds s xs` says that the stream in state `s` will deliver the bytes `xs` and then end.
use cppvless.Common.{
  ℕ, ◌≤◌, ◌<◌, ◌≡◌, refl, sym, ap, ◌∙◌, [], ◌++◌, append-nil, Bytes, length, take, drop, take_all,
  arith,
}

pub record ByteReader (S : Type 0) : Type 1 where
  pub read : ℕ → S → Bytes × S
  pub drain_remaining : S → Bytes × S
  pub Holds : S → Bytes → Type 0
  pub read_enough :
      (n : ℕ) (s : S) (xs : Bytes)
      → Holds s xs
      → n ≤ length xs
      → ((read n s).0 ≡ take n xs) × Holds (read n s).1 (drop n xs)
  pub read_short : (n : ℕ) (s : S) (xs : Bytes) → Holds s xs → length xs < n → (read n s).0 ≡ xs
  pub drain_prefix :
      (s : S) (xs : Bytes)
      → Holds s xs
      → (rest : Bytes) × (xs ≡ (drain_remaining s).0 ++ rest) × Holds (drain_remaining s).1 rest

pub flat_enough :
    (n : ℕ) (s xs : Bytes)
    → s ≡ xs
    → n ≤ length xs
    → (take n s ≡ take n xs) × (drop n s ≡ drop n xs)
flat_enough n s xs h _ = (ap (take n) h, ap (drop n) h)

pub flat_short : (n : ℕ) (s xs : Bytes) → s ≡ xs → length xs < n → take n s ≡ xs
flat_short n s xs h lt = rw h (take_all n xs (omega arith))

pub flat_prefix : (s xs : Bytes) → s ≡ xs → (rest : Bytes) × (xs ≡ s ++ rest) × ([] ≡ rest)
flat_prefix s xs h = ([], sym h ∙ sym (append-nil s), refl)

-- A stream whose bytes have all arrived, and which keeps nothing back.
abbrev pub flat : ByteReader Bytes
flat = record {
  read = λ n s. (take n s, drop n s);
  drain_remaining = λ s. (s, []);
  Holds = λ s xs. s ≡ xs;
  read_enough = flat_enough;
  read_short = flat_short;
  drain_prefix = flat_prefix;
}
