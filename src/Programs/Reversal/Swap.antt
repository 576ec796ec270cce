-- ===== src/Programs/Reversal/Swap.antt =====
-- The loop of `reverseString` (examples/file/main.go) reverses its slice.
use mathlib.Core.List.{reverse, reverse-cons, reverse-append}
use mathlib.Core.Path.{subst}
use go_streams.Prelude.{
  ℕ, zero, suc, ◌+◌, ◌-◌, ◌<◌, ◌≤◌, some, List, [], ◌∷◌, ◌++◌, ◌≡◌, refl, ap, sym, ◌∙◌, arith,
  length, get_elem?, length-append, append_assoc, append-nil, lt→ltb,
}
use go_streams.Programs.Reversal.{set_elem, swap, swap_loop, reverse_runes}

module _ {A : Type 0} where
  get_elem?-behind :
      (a r : List A) (x : A) (i : ℕ) → i ≡ length a → get_elem? (a ++ (x ∷ r)) i ≡ some x
  get_elem?-behind [] r x zero h = refl
  get_elem?-behind [] r x (suc i) h = absurd (omega arith)
  get_elem?-behind (y ∷ a) r x zero h = absurd (omega arith)
  get_elem?-behind (y ∷ a) r x (suc i) h = get_elem?-behind a r x i (omega arith)

  set_elem-behind :
      (a r : List A) (x y : A) (i : ℕ) → i ≡ length a → set_elem (a ++ (x ∷ r)) i y ≡ a ++ (y ∷ r)
  unfolding set_elem
  set_elem-behind [] r x y zero h = refl
  set_elem-behind [] r x y (suc i) h = absurd (omega arith)
  set_elem-behind (z ∷ a) r x y zero h = absurd (omega arith)
  set_elem-behind (z ∷ a) r x y (suc i) h =
      ap (λ l. z ∷ l) (set_elem-behind a r x y i (omega arith))

  swap_ends :
      (a m c : List A) (x y : A) (i j : ℕ)
      → i ≡ length a
      → j ≡ suc (length a + length m)
      → swap i j (a ++ (x ∷ (m ++ (y ∷ c)))) ≡ some (a ++ (y ∷ (m ++ (x ∷ c))))
  unfolding swap
  swap_ends a m c x y i j hi hj = ground (
    arith,
    get_elem?-behind a (m ++ (y ∷ c)) x i hi,
    append_assoc a (x ∷ m) (y ∷ c),
    append_assoc a (y ∷ m) (y ∷ c),
    append_assoc a (y ∷ m) (x ∷ c),
    get_elem?-behind (a ++ (x ∷ m)) c y j (omega (arith, length-append a (x ∷ m))),
    set_elem-behind a (m ++ (y ∷ c)) x y i hi,
    set_elem-behind (a ++ (y ∷ m)) c y x j (omega (arith, length-append a (y ∷ m))),
  )

  -- A list is empty, or has a last element.
  data Ends (xs : List A) : Type 0 where
    empty : xs ≡ [] → Ends xs
    last : (m : List A) (y : A) → xs ≡ m ++ (y ∷ []) → Ends xs

  ends : (xs : List A) → Ends xs
  ends [] = empty refl
  ends (x ∷ xs) = elim (ends xs) [
    | empty e ↦ last [] x (ap (λ l. x ∷ l) e)
    | last m y e ↦ last (x ∷ m) y (ap (λ l. x ∷ l) e)
  ]

  swap_loop-step :
      (fuel i j : ℕ) (xs xs' : List A)
      → i < j
      → swap i j xs ≡ some xs'
      → swap_loop (suc fuel) i j xs ≡ swap_loop fuel (i + 1) (j - 1) xs'
  unfolding swap_loop
  swap_loop-step fuel i j xs xs' h e = ground (arith, lt→ltb i j h, e)

  reverse_ends :
      (x y : A) (m c : List A) → reverse (x ∷ (m ++ (y ∷ []))) ++ c ≡ y ∷ (reverse m ++ (x ∷ c))
  reverse_ends x y m c =
      rw (reverse-cons x (m ++ (y ∷ [])), reverse-append m (y ∷ []))
        (ap (λ l. y ∷ l) (append_assoc (reverse m) (x ∷ []) c))

  swap_loop-around :
      (fuel : ℕ) (a m c : List A) (x y : A) (i j : ℕ)
      → i ≡ length a
      → j ≡ suc (length a + length m)
      → swap_loop (suc fuel) (i + 1) (j - 1) ((a ++ (y ∷ [])) ++ (m ++ (x ∷ c)))
        ≡ some ((a ++ (y ∷ [])) ++ (reverse m ++ (x ∷ c)))
      → swap_loop (suc (suc fuel)) i j (a ++ (x ∷ ((m ++ (y ∷ [])) ++ c)))
        ≡ some (a ++ (reverse (x ∷ (m ++ (y ∷ []))) ++ c))
  swap_loop-around fuel a m c x y i j hi hj inside =
      ap (λ l. swap_loop (suc (suc fuel)) i j (a ++ (x ∷ l))) (append_assoc m (y ∷ []) c)
      ∙ swap_loop-step (suc fuel) i j _ _ (omega arith) (swap_ends a m c x y i j hi hj)
      ∙ ap (swap_loop (suc fuel) (i + 1) (j - 1)) (sym (append_assoc a (y ∷ []) (m ++ (x ∷ c))))
      ∙ inside
      ∙ ap some (
          append_assoc a (y ∷ []) (reverse m ++ (x ∷ c))
          ∙ ap (λ l. a ++ l) (sym (reverse_ends x y m c)))

  -- Between `a` and `c` there is what is not reversed yet.
  swap_loop_lem :
      (fuel : ℕ) (a m c : List A) (i j : ℕ)
      → length m ≤ fuel
      → i ≡ length a
      → j ≡ (length a + length m) - 1
      → swap_loop (suc fuel) i j (a ++ (m ++ c)) ≡ some (a ++ (reverse m ++ c))
  unfolding swap_loop
  swap_loop_lem fuel a [] c i j n hi hj = ground arith
  swap_loop_lem zero a (x ∷ m) c i j n hi hj = absurd (omega arith)
  swap_loop_lem (suc fuel) a (x ∷ m) c i j n hi hj = elim (ends m) [
    | empty e ↦ ground (arith, e, ap length e)
    | last m' y e ↦
        let size = ap length e ∙ length-append m' (y ∷ []) in
        subst
          (λ l.
            swap_loop (suc (suc fuel)) i j (a ++ (x ∷ (l ++ c)))
            ≡ some (a ++ (reverse (x ∷ l) ++ c)))
          (sym e)
          (swap_loop-around fuel a m' c x y i j hi (omega (arith, size)) (
            swap_loop_lem fuel (a ++ (y ∷ [])) m' (x ∷ c) (i + 1) (j - 1) (omega (arith, size))
              (omega (arith, length-append a (y ∷ [])))
              (omega (arith, size, length-append a (y ∷ [])))))
  ]

  -- `reverse_runes` computes the reversed list, for every length; in particular no index of the loop is
  -- out of range.
  pub reverse_runes_lem : (xs : List A) → reverse_runes xs ≡ some (reverse xs)
  unfolding reverse_runes
  reverse_runes_lem xs =
      ap (swap_loop (suc (length xs)) 0 (length xs - 1)) (sym (append-nil xs))
      ∙ swap_loop_lem (length xs) [] xs [] 0 (length xs - 1) (omega arith) refl (omega arith)
      ∙ ap some (append-nil (reverse xs))
