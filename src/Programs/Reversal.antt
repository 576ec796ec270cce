-- ===== src/Programs/Reversal.antt =====
-- examples/file/main.go: the lines of a file, each reversed, written to another file.
pub mod Swap
pub mod Laws
use go_streams.Prelude.{
  ℕ, zero, suc, ◌+◌, ◌-◌, Option, none, some, List, [], ◌∷◌, ◌++◌, ◌≡◌, if◌then◌else◌, ltb, length,
  get_elem?, All, map,
}
use go_streams.Extension.Message.{Message, bytes, string, stringer, other}
use go_streams.Pipeline.{Operator, source, Program}
use go_streams.Pipeline.Operators.{stateless, via_flow, to_sink}

-- Go's conversions between a string, as its bytes, and its code points: bytes that encode none become
-- the replacement character, so that all that comes from a string can be encoded again.
pub record Utf8 : Type 1 where
  pub runes : List ℕ → List ℕ
  pub text : List ℕ → List ℕ
  pub IsRune : ℕ → Type 0
  pub runes-IsRune : (b : List ℕ) → All IsRune (runes b)
  pub runes-text : (rs : List ℕ) → All IsRune rs → runes (text rs) ≡ rs

module _ {A : Type 0} where
  -- `xs[i] = x`, where `i` is an index of `xs`
  set_elem : List A → ℕ → A → List A
  set_elem [] i x = []
  set_elem (y ∷ ys) zero x = x ∷ ys
  set_elem (y ∷ ys) (suc i) x = y ∷ set_elem ys i x

  -- `runes[i], runes[j] = runes[j], runes[i]`; `none` is an index out of range.
  swap : ℕ → ℕ → List A → Option (List A)
  unfolding set_elem
  swap i j xs = elim (get_elem? xs i) [
    | none ↦ none
    | some x ↦ elim (get_elem? xs j) [
      | none ↦ none
      | some y ↦ some (set_elem (set_elem xs i y) j x)
    ]
  ]

  -- The `for` loop, with so much fuel; `none` is a panic, or that the fuel is used up.
  swap_loop : ℕ → ℕ → ℕ → List A → Option (List A)
  unfolding swap
  swap_loop zero i j xs = none
  swap_loop (suc fuel) i j xs =
      if ltb i j
      then elim (swap i j xs) [ none ↦ none | some xs' ↦ swap_loop fuel (i + 1) (j - 1) xs' ]
      else some xs

  -- The loop from its start: on no runes `len(runes) - 1` is -1, and the loop ends with `j` as 0 too.
  unfoldable pub reverse_runes : List A → Option (List A)
  unfolding swap_loop
  reverse_runes xs = swap_loop (suc (length xs)) 0 (length xs - 1) xs

abbrev pub new_line : List ℕ
new_line = 10 ∷ []

-- `addNewLine`
unfoldable pub add_new_line : List ℕ → List ℕ
add_new_line s = s ++ new_line

abbrev pub as_string : Message → Option (List ℕ)
as_string (string b) = some b
as_string _ = none

-- The worker of `flow.NewMap(addNewLine, 1)`
unfoldable pub new_line_body : Message → Option (List Message)
unfolding add_new_line
new_line_body e = elim (as_string e) [ none ↦ none | some s ↦ some (string (add_new_line s) ∷ []) ]

module _ (u : Utf8) where
  -- `reverseString`
  unfoldable pub reverse_string : List ℕ → Option (List ℕ)
  unfolding reverse_runes
  reverse_string s = elim (reverse_runes (u.runes s)) [ none ↦ none | some rs ↦ some (u.text rs) ]

  -- The worker of `flow.NewMap(reverseString, 1)`
  unfoldable pub reverse_body : Message → Option (List Message)
  unfolding reverse_string
  reverse_body e = elim (as_string e) [
    | none ↦ none
    | some s ↦ elim (reverse_string s) [ none ↦ none | some t ↦ some (string t ∷ []) ]
  ]

  -- `main`, over the lines that the FileSource sends
  abbrev pub main : List (List ℕ) → Program Message
  main lines = to_sink (
      via_flow (via_flow (source (map string lines)) (stateless reverse_body) tt)
        (stateless new_line_body) tt)
