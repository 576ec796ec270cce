-- ===== src/Prelude/Subsequence.antt =====
-- Lists with some elements left out.
use mathlib.Core.Path.{◌≡◌, refl}
use mathlib.Core.Logic.{◌⊎◌, inl, inr}
use mathlib.Core.List.{List, [], ◌∷◌, ◌++◌}

-- `xs` is `ys` with some elements left out.
abbrev pub IsSubsequence : {A : Type 0} → List A → List A → Type 0
IsSubsequence [] ys = Unit
IsSubsequence (x ∷ xs) [] = ⊥
IsSubsequence (x ∷ xs) (y ∷ ys) = ((x ≡ y) × IsSubsequence xs ys) ⊎ IsSubsequence (x ∷ xs) ys

module _ {Any : Type 0} where
  pub IsSubsequence-refl : (xs : List Any) → IsSubsequence xs xs
  IsSubsequence-refl [] = tt
  IsSubsequence-refl (x ∷ xs) = inl (refl, IsSubsequence-refl xs)

  IsSubsequence-tail :
      (x : Any) (xs ys : List Any) → IsSubsequence (x ∷ xs) ys → IsSubsequence xs ys
  IsSubsequence-tail x [] ys h = tt
  IsSubsequence-tail x (x' ∷ xs) [] h = elim h [ ]
  IsSubsequence-tail x (x' ∷ xs) (y ∷ ys) (inl (e, h)) = inr h
  IsSubsequence-tail x (x' ∷ xs) (y ∷ ys) (inr h) = inr (IsSubsequence-tail x (x' ∷ xs) ys h)

  pub IsSubsequence-drop :
      (xs : List Any) (e : Any) (zs ys : List Any)
      → IsSubsequence (xs ++ (e ∷ zs)) ys
      → IsSubsequence (xs ++ zs) ys
  IsSubsequence-drop [] e zs ys h = IsSubsequence-tail e zs ys h
  IsSubsequence-drop (x ∷ xs) e zs [] h = elim h [ ]
  IsSubsequence-drop (x ∷ xs) e zs (y ∷ ys) (inl (p, h)) = inl (p, IsSubsequence-drop xs e zs ys h)
  IsSubsequence-drop (x ∷ xs) e zs (y ∷ ys) (inr h) = inr (IsSubsequence-drop (x ∷ xs) e zs ys h)
