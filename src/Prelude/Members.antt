-- ===== src/Prelude/Members.antt =====
-- What is in a list.
use mathlib.Core.Path.{◌≡◌, refl}
use mathlib.Core.Logic.{◌⊎◌, inl, inr}
use mathlib.Core.List.{List, [], ◌∷◌, ◌++◌}

abbrev pub IsIn : {A : Type 0} → A → List A → Type 0
IsIn a [] = ⊥
IsIn a (b ∷ bs) = (b ≡ a) ⊎ IsIn a bs

pub IsIn-append : {A : Type 0} (a : A) (xs : List A) (b : A) → IsIn a xs → IsIn a (xs ++ (b ∷ []))
IsIn-append a [] b h = elim h [ ]
IsIn-append a (x ∷ xs) b (inl same) = inl same
IsIn-append a (x ∷ xs) b (inr h) = inr (IsIn-append a xs b h)

pub IsIn-last : {A : Type 0} (xs : List A) (b : A) → IsIn b (xs ++ (b ∷ []))
IsIn-last [] b = inl refl
IsIn-last (x ∷ xs) b = inr (IsIn-last xs b)

pub IsIn-split :
    {A : Type 0} (a : A) (xs : List A) (b : A) → IsIn a (xs ++ (b ∷ [])) → IsIn a xs ⊎ (b ≡ a)
IsIn-split a [] b (inl same) = inr same
IsIn-split a [] b (inr h) = elim h [ ]
IsIn-split a (x ∷ xs) b (inl same) = inl (inl same)
IsIn-split a (x ∷ xs) b (inr h) = elim (IsIn-split a xs b h) [
  | inl before ↦ inl (inr before)
  | inr same ↦ inr same
]
