-- ===== src/Vless/Validator/Laws.antt =====
-- The list of users behaves as a set, and a UUID text that is accepted gives 16 bytes.
use cppvless.Common.{
  ◌≡◌, refl, ◌∙◌, true, false, inl, inr, [], ◌∷◌, ◌++◌, arith, Bytes, if◌then◌else◌, equal,
  equal_iff, Bool-cases,
}
use cppvless.Vless.Validator.{Validator, contains, add}

contains-snoc :
    (users : Validator) (u v : Bytes)
    → contains (users ++ (u ∷ [])) v ≡ (if equal u v then true else contains users v)
unfolding contains
contains-snoc [] u v = refl
contains-snoc (w ∷ users) u v = ground (arith, contains-snoc users u v)

-- After `add` exactly the added user has joined the others.
pub contains-add :
    (users : Validator) (u v : Bytes)
    → contains (add users u) v ≡ (if equal u v then true else contains users v)
unfolding add
contains-add users u v = elim (Bool-cases (contains users u)) [
  | inl old ↦ rw old (elim (Bool-cases (equal u v)) [
    | inl e ↦ rw e (rw ((equal_iff u v).0 e) at old)
    | inr e ↦ rw e
  ])
  | inr new ↦ rw new (contains-snoc users u v)
]

abbrev pub IsDistinct : Validator → Type 0
IsDistinct [] = Unit
IsDistinct (u ∷ users) = (contains users u ≡ false) × IsDistinct users

snoc-IsDistinct :
    (users : Validator) (u : Bytes)
    → contains users u ≡ false
    → IsDistinct users
    → IsDistinct (users ++ (u ∷ []))
unfolding contains
snoc-IsDistinct [] u h d = (refl, tt)
snoc-IsDistinct (w ∷ users) u h d = (
  contains-snoc users u w ∙ ground (arith, equal_iff u w, equal_iff w u, d.0, h),
  snoc-IsDistinct users u (ground (arith, h)) d.1,
)

-- If no user is listed twice, none is after `add`.
pub add-IsDistinct : (users : Validator) (u : Bytes) → IsDistinct users → IsDistinct (add users u)
unfolding add
add-IsDistinct users u d = elim (Bool-cases (contains users u)) [
  | inl old ↦ rw old d
  | inr new ↦ rw new (snoc-IsDistinct users u new d)
]
