-- ===== src/Prelude/Lists.antt =====
-- Lists measured and indexed by native numbers, under the library's names, with the sums by which
-- two lists are compared as bags.
use Prim.Native.Nat.{ℕ, zero, suc, ◌+◌}
use mathlib.Core.Path.{◌≡◌, refl, ap}
use mathlib.Core.Bool.{Bool}
use mathlib.Core.List.{List, [], ◌∷◌, ◌++◌, append-nil, append_assoc}
use mathlib.Core.Option.{Option, none, some}
use native.Mathlib.Omega.{arith}
use go_streams.Prelude.Tests.{if◌then◌else◌}

module _ {ℓ} {A : Type ℓ} where
  abbrev pub length : List A → ℕ
  length [] = 0
  length (x ∷ xs) = suc (length xs)

  abbrev pub get_elem? : List A → ℕ → Option A
  get_elem? [] i = none
  get_elem? (x ∷ xs) zero = some x
  get_elem? (x ∷ xs) (suc i) = get_elem? xs i

  pub length-eq-zero : (xs : List A) → length xs ≡ 0 → xs ≡ []
  length-eq-zero [] h = refl
  length-eq-zero (x ∷ xs) h = absurd (omega arith)

  pub length-append : (xs ys : List A) → length (xs ++ ys) ≡ length xs + length ys
  length-append [] ys = omega arith
  length-append (x ∷ xs) ys = omega (arith, length-append xs ys)

module _ {ℓ} {A : Type ℓ} where
  abbrev pub take : ℕ → List A → List A
  take zero xs = []
  take (suc n) [] = []
  take (suc n) (x ∷ xs) = x ∷ take n xs

  abbrev pub drop : ℕ → List A → List A
  drop zero xs = xs
  drop (suc n) [] = []
  drop (suc n) (x ∷ xs) = drop n xs

  abbrev pub replicate : ℕ → A → List A
  replicate zero a = []
  replicate (suc n) a = a ∷ replicate n a

module _ {ℓ} {A : Type ℓ} where
  -- Every element satisfies `P`; it computes to a tuple.
  abbrev pub All {κ} : (A → Type κ) → List A → Type κ
  All P [] = Unit
  All P (x ∷ xs) = P x × All P xs

  pub All-map {κ μ} :
      (P : A → Type κ) (Q : A → Type μ) (xs : List A) → ((x : A) → P x → Q x) → All P xs → All Q xs
  All-map P Q [] weaken h = tt
  All-map P Q (x ∷ xs) weaken h = (weaken x h.0, All-map P Q xs weaken h.1)

  pub All-append {κ} : (P : A → Type κ) (xs ys : List A) → All P xs → All P ys → All P (xs ++ ys)
  All-append P [] ys hx hy = hy
  All-append P (x ∷ xs) ys hx hy = (hx.0, All-append P xs ys hx.1 hy)

  -- Where one element has been replaced, and what held of the others is now something weaker.
  pub All-replace {κ μ} :
      (P : A → Type κ) (Q : A → Type μ) (before after : List A) (a b : A)
      → ((x : A) → P x → Q x)
      → All P (before ++ (a ∷ after))
      → Q b
      → All Q (before ++ (b ∷ after))
  All-replace P Q [] after a b weaken h q = (q, All-map P Q after weaken h.1)
  All-replace P Q (x ∷ before) after a b weaken h q =
      (weaken x h.0, All-replace P Q before after a b weaken h.1 q)

  pub All-at {κ} :
      (P : A → Type κ) (before after : List A) (a : A) → All P (before ++ (a ∷ after)) → P a
  All-at P [] after a h = h.0
  All-at P (x ∷ before) after a h = All-at P before after a h.1

  -- The total weight of a list.
  abbrev pub weigh : (A → ℕ) → List A → ℕ
  weigh w [] = 0
  weigh w (x ∷ xs) = w x + weigh w xs

  pub weigh-append : (w : A → ℕ) (xs ys : List A) → weigh w (xs ++ ys) ≡ weigh w xs + weigh w ys
  weigh-append w [] ys = omega arith
  weigh-append w (x ∷ xs) ys = omega (arith, weigh-append w xs ys)

  -- Two lists hold the same elements, as often: no weight tells them apart.
  abbrev pub SameBag : List A → List A → Type ℓ
  SameBag xs ys = (w : A → ℕ) → weigh w xs ≡ weigh w ys

  abbrev pub concat : List (List A) → List A
  concat [] = []
  concat (xs ∷ xss) = xs ++ concat xss

  pub concat-snoc : (xss : List (List A)) (xs : List A) → concat (xss ++ xs ∷ []) ≡ concat xss ++ xs
  concat-snoc [] xs = append-nil xs
  concat-snoc (ys ∷ xss) xs = rw (concat-snoc xss xs, append_assoc)

  pub concat-append : (xss yss : List (List A)) → concat (xss ++ yss) ≡ concat xss ++ concat yss
  concat-append [] yss = refl
  concat-append (xs ∷ xss) yss = rw (concat-append xss yss, append_assoc)

  -- The elements that pass a Boolean test, in order.
  abbrev pub keep : (A → Bool) → List A → List A
  keep p [] = []
  keep p (x ∷ xs) = if p x then x ∷ keep p xs else keep p xs

-- Replacing one element changes a sum by the difference.
pub weigh_swap {ℓ} :
    {A : Type ℓ} (f : A → ℕ) (xs before after : List A) (a b : A)
    → xs ≡ before ++ (a ∷ after)
    → weigh f (before ++ (b ∷ after)) + f a ≡ weigh f xs + f b
weigh_swap f xs before after a b e =
    omega
      (arith, weigh-append f before (a ∷ after), weigh-append f before (b ∷ after), ap (weigh f) e)

pub length_swap {ℓ} :
    {A : Type ℓ} (xs before after : List A) (a b : A)
    → xs ≡ before ++ (a ∷ after)
    → length (before ++ (b ∷ after)) ≡ length xs
length_swap xs before after a b e =
    omega (arith, length-append before (a ∷ after), length-append before (b ∷ after), ap length e)
