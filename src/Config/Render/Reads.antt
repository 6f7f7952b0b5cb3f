-- ===== src/Config/Render/Reads.antt =====
-- What the parser makes of printed values (src/common/config.cpp).
use cppvless.Common.{
  subst, ℕ, zero, suc, ◌^◌, ◌<◌, ◌≤◌, ◌≡◌, refl, ap, ◌∙◌, sym, Bool, true, false, [], ◌∷◌, ◌++◌,
  append_assoc, append-nil, arith, Bytes, All, length, length-append, ◌==◌, ==_iff, Bool-cases, inl,
  inr, ok, ◌>>=◌, equal,
}
use cppvless.Common.Int.{ℤ}
use cppvless.Config.Json.{Json, Fields, bool, string, object, field, no_fields}
use cppvless.Config.Json.Number.{magnitude}
use cppvless.Config.Render.Numbers.{stops, skip_ws-decimal_int, parse_value-decimal_int}
use cppvless.Config.Json.Text.{
  Parser, is_space, skip_ws, consume, escaped, string_loop, parse_string, quote, backslash,
}
use cppvless.Config.Json.Parser.{
  open_object, separator, parse_key, parse_scalar, parse_value, parse_fields,
}
use cppvless.Config.Render.{newline, json_escape, quoted, number, boolean, label}

length-json_escape_cons :
    (c : ℕ) (cs : Bytes) → length (json_escape cs) < length (json_escape (c ∷ cs))
unfolding json_escape
length-json_escape_cons c cs = ground arith

string_loop-json_escape :
    (f : ℕ) (out s rest : Bytes)
    → length (json_escape s) < f
    → string_loop f out (json_escape s ++ (quote ∷ rest)) ≡ ok (out ++ s, rest)
unfolding string_loop json_escape escaped
string_loop-json_escape zero out s rest h = absurd (omega arith)
string_loop-json_escape (suc f) out [] rest h = rw append-nil
string_loop-json_escape (suc f) out (c ∷ cs) rest h = character (λ v e. rw e (
    string_loop-json_escape f (out ++ c ∷ []) cs rest (omega (arith, length-json_escape_cons c cs))
    ∙ ap (λ xs. ok (xs, rest)) (append_assoc out (c ∷ []) cs)))
  where
    character :
        ((v : ℕ)
          → v ≡ c
          → string_loop f (out ++ v ∷ []) (json_escape cs ++ (quote ∷ rest))
            ≡ ok (out ++ c ∷ cs, rest))
        → string_loop (suc f) out (json_escape (c ∷ cs) ++ (quote ∷ rest))
          ≡ ok (out ++ c ∷ cs, rest)
    character go = elim (Bool-cases (c == quote)) [
      | inl e ↦ rw e (go quote (sym ((==_iff c quote).0 e)))
      | inr q ↦ rw q (elim (Bool-cases (c == backslash)) [
        | inl e ↦ rw e (go backslash (sym ((==_iff c backslash).0 e)))
        | inr b ↦ rw b (elim (Bool-cases (c == newline)) [
          | inl e ↦ rw e (go newline (sym ((==_iff c newline).0 e)))
          | inr n ↦ rw n (elim (Bool-cases (c == 9)) [
            | inl e ↦ rw e (go 9 (sym ((==_iff c 9).0 e)))
            | inr t ↦ rw t (elim (Bool-cases (c == 13)) [
              | inl e ↦ rw e (go 13 (sym ((==_iff c 13).0 e)))
              | inr r ↦ rw (r, q, b) (go c refl)
            ])
          ])
        ])
      ])
    ]

-- A printed string is read back.
pub parse_string-quoted : (s rest : Bytes) → parse_string (quoted s rest) ≡ ok (s, rest)
unfolding parse_string
parse_string-quoted s rest =
    string_loop-json_escape (suc (length (json_escape s ++ (quote ∷ rest)))) [] s rest
      (omega (arith, length-append (json_escape s) (quote ∷ rest)))

parse_string_raw :
    (key rest : Bytes)
    → json_escape key ≡ key
    → parse_string (quote ∷ (key ++ (quote ∷ rest))) ≡ ok (key, rest)
parse_string_raw key rest e =
    subst (λ x. parse_string (quote ∷ (x ++ (quote ∷ rest))) ≡ ok (key, rest)) e
      (parse_string-quoted key rest)

skip_ws_spaces :
    (indent text : Bytes)
    → All (λ c. is_space c ≡ true) indent
    → skip_ws (indent ++ text) ≡ skip_ws text
unfolding skip_ws
skip_ws_spaces [] text h = refl
skip_ws_spaces (c ∷ cs) text h = rw h.0 (skip_ws_spaces cs text h.1)

module _ (other : Bytes → ℤ) where
  -- With fuel from `k` on, the printed value is read back in front of what ends a number.
  pub record Reads (k : ℕ) (printed : Bytes → Bytes) (v : Json) : Type 0 where
    pub solid : (rest : Bytes) → skip_ws (printed rest) ≡ printed rest
    pub reads :
        (f : ℕ) (rest : Bytes)
        → k ≤ f
        → stops rest ≡ true
        → parse_value f other (printed rest) ≡ ok (v, rest)

  pub ReadsFields : ℕ → Bytes → Fields → Bytes → Type 0
  ReadsFields k text fs rest = (f : ℕ) → k ≤ f → parse_fields f other text ≡ ok (fs, rest)

  pub Reads-weaken :
      (j k : ℕ) (printed : Bytes → Bytes) (v : Json) → j ≤ k → Reads j printed v → Reads k printed v
  Reads-weaken j k printed v h r = record {
    solid = r.solid;
    reads = λ f rest g s. r.reads f rest (omega arith) s;
  }

  pub quoted-Reads : (k : ℕ) (s : Bytes) → Reads (suc k) (quoted s) (string s)
  quoted-Reads k s = record { solid = λ rest. unfold skip_ws in refl; reads = reads }
    where
      reads :
          (f : ℕ) (rest : Bytes)
          → suc k ≤ f
          → stops rest ≡ true
          → parse_value f other (quoted s rest) ≡ ok (string s, rest)
      reads zero rest h e = absurd (omega arith)
      reads (suc f) rest h e = unfold parse_value parse_scalar in rw (parse_string-quoted s rest)

  pub boolean-Reads : (k : ℕ) (b : Bool) → Reads (suc k) (boolean b) (bool b)
  boolean-Reads k b = record { solid = solid b; reads = reads b }
    where
      solid : (b : Bool) (rest : Bytes) → skip_ws (boolean b rest) ≡ boolean b rest
      solid true rest = unfold skip_ws in refl
      solid false rest = unfold skip_ws in refl

      reads :
          (b : Bool) (f : ℕ) (rest : Bytes)
          → suc k ≤ f
          → stops rest ≡ true
          → parse_value f other (boolean b rest) ≡ ok (bool b, rest)
      reads b zero rest h e = absurd (omega arith)
      reads true (suc f) rest h e = unfold parse_value parse_scalar equal in refl
      reads false (suc f) rest h e = unfold parse_value parse_scalar equal in refl

  pub number-Reads :
      (k : ℕ) (z : ℤ) → magnitude z ≤ 2 ^ 53 → Reads (suc k) (number z) (Json.number z)
  number-Reads k z b = record { solid = skip_ws-decimal_int z; reads = reads }
    where
      reads :
          (f : ℕ) (rest : Bytes)
          → suc k ≤ f
          → stops rest ≡ true
          → parse_value f other (number z rest) ≡ ok (Json.number z, rest)
      reads zero rest h e = absurd (omega arith)
      reads (suc f) rest h e = parse_value-decimal_int f other z rest b e

  parse_key-label :
      (indent key text : Bytes)
      → All (λ c. is_space c ≡ true) indent
      → json_escape key ≡ key
      → parse_key (indent ++ label key text) ≡ ok (key, skip_ws text)
  unfolding parse_key
  parse_key-label indent key text spaces e =
      rw (skip_ws_spaces indent (label key text) spaces)
        (unfold skip_ws in rw (parse_string_raw key (b':' ∷ 32 ∷ text) e) (unfold consume in refl))

  -- A member behind which a comma stands, and the others.
  pub field_next :
      (k : ℕ) (indent key : Bytes) (printed : Bytes → Bytes) (v : Json) (text : Bytes) (fs : Fields)
      (rest : Bytes)
      → All (λ c. is_space c ≡ true) indent
      → json_escape key ≡ key
      → Reads k printed v
      → ReadsFields k text fs rest
      → ReadsFields (suc k) (indent ++ label key (printed (b',' ∷ text))) (field key v fs) rest
  unfolding ReadsFields
  field_next k indent key printed v text fs rest spaces e r more zero h = absurd (omega arith)
  field_next k indent key printed v text fs rest spaces e r more (suc f) h =
      unfold parse_fields in
      rw (parse_key-label indent key (printed (b',' ∷ text)) spaces e, r.solid (b',' ∷ text))
        (rw (r.reads f (b',' ∷ text) (omega arith) refl)
          (unfold separator in rw (more f (omega arith))))

  -- The last member, with what stands behind it up to the brace.
  pub field_last :
      (k : ℕ) (indent key : Bytes) (printed : Bytes → Bytes) (v : Json) (text rest : Bytes)
      → All (λ c. is_space c ≡ true) indent
      → json_escape key ≡ key
      → Reads k printed v
      → separator b'}' text ≡ ok (true, rest)
      → stops text ≡ true
      → ReadsFields (suc k) (indent ++ label key (printed text)) (field key v no_fields) rest
  unfolding ReadsFields
  field_last k indent key printed v text rest spaces e r close s zero h = absurd (omega arith)
  field_last k indent key printed v text rest spaces e r close s (suc f) h =
      unfold parse_fields in
      rw (parse_key-label indent key (printed text) spaces e, r.solid text)
        (rw (r.reads f text (omega arith) s) (rw close))

  -- An object whose text behind the brace leads to its first member, `start`.
  pub object-Reads :
      (k f : ℕ) (text start rest : Bytes) (fs : Fields)
      → ReadsFields k start fs rest
      → suc k ≤ f
      → ((p : Parser Fields) → open_object p text ≡ (p start >>= λ (gs, end). ok (object gs, end)))
      → parse_value f other (b'{' ∷ text) ≡ ok (object fs, rest)
  unfolding ReadsFields parse_value
  object-Reads k zero text start rest fs r h o = absurd (omega arith)
  object-Reads k (suc f) text start rest fs r h o =
      o (parse_fields f other)
      ∙ ap (λ x. x >>= λ (gs, end). ok (object gs, end)) (r f (omega arith))
