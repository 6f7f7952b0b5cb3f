-- ===== src/Tests/Data.antt =====
-- Bounds on the members of a literal list, by a test.
use cppvless.Common.{
  refl, ℕ, ◌<◌, ◌≡◌, Bool, true, false, [], ◌∷◌, Bytes, All, ltb, ltb→lt, if◌then◌else◌,
}

abbrev pub all_below : ℕ → Bytes → Bool
all_below k [] = true
all_below k (b ∷ bs) = let rest = all_below k bs in if ltb b k then rest else false

pub below : (k : ℕ) (bs : Bytes) → all_below k bs ≡ true → All (λ b. b < k) bs
below k [] h = tt
below k (b ∷ bs) h = (
  ltb→lt b k (first (ltb b k) (all_below k bs) h),
  below k bs (rest (ltb b k) (all_below k bs) h),
)
  where
    first : (x y : Bool) → (if x then y else false) ≡ true → x ≡ true
    first true y h = refl
    first false y h = cc

    rest : (x y : Bool) → (if x then y else false) ≡ true → y ≡ true
    rest true y h = h
    rest false y h = cc
