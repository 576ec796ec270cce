-- ===== src/ZipWith.antt =====
-- `ZipWith` of flow/util.go. The outlets are what each of them delivers until it is closed.
pub mod Laws
use go_streams.Prelude.{
  ℕ, zero, suc, ◌<◌, Option, none, some, List, [], ◌∷◌, ◌++◌, length, ltb, if◌then◌else◌,
}
use go_streams.Channel.{Chan, Outcome, ok, panic, bad_assertion, make_chan, send, close}

module _ {Any T R : Type 0} (assert : Any → Option T) (zero_value : T) (combine : List T → R) where
  -- The loop over `tail`: a value for each outlet, and what the outlets have left; `none` is a failed
  -- assertion.
  read_tail : List (List Any) → Option (List T × List (List Any))
  read_tail [] = some ([], [])
  read_tail ([] ∷ tail) = elim (read_tail tail) [
    | none ↦ none
    | some (values, rest) ↦ some (zero_value ∷ values, [] ∷ rest)
  ]
  read_tail ((e ∷ es) ∷ tail) = elim (assert e) [
    | none ↦ none
    | some t ↦ elim (read_tail tail) [
      | none ↦ none
      | some (values, rest) ↦ some (t ∷ values, es ∷ rest)
    ]
  ]

  -- `n` zero values, for the outlets that are closed.
  closed_values : ℕ → List T
  closed_values zero = []
  closed_values (suc n) = zero_value ∷ closed_values n

  -- The slice `zipped` for an element of the head, and what the tail has left.
  zip_element : ℕ → Any → List (List Any) → Option (List T × List (List Any))
  unfolding read_tail closed_values
  zip_element n e tail = elim (assert e) [
    | none ↦ none
    | some t ↦ elim (read_tail tail) [
      | none ↦ none
      | some (values, rest) ↦ some (closed_values n ++ (t ∷ values), rest)
    ]
  ]

  -- The loop over the head, with `n` closed outlets before it.
  zip_head : ℕ → List Any → List (List Any) → Chan R → Outcome (List (List Any) × Chan R)
  unfolding zip_element
  zip_head n [] tail out = ok (tail, out)
  zip_head n (e ∷ es) tail out = elim (zip_element n e tail) [
    | none ↦ panic bad_assertion (tail, out)
    | some (zipped, rest) ↦ elim (send (combine zipped) out) [
      | ok out' ↦ zip_head n es rest out'
      | panic f out' ↦ panic f (rest, out')
    ]
  ]

  -- The loop over `n`, with `left` rounds to go.
  zip_loop : (left n : ℕ) → List (List Any) → Chan R → Outcome (Chan R)
  unfolding zip_head
  zip_loop zero n outlets out = close out
  zip_loop (suc left) n [] out = close out
  zip_loop (suc left) n (head ∷ tail) out = elim (zip_head n head tail out) [
    | ok (tail', out') ↦ zip_loop left (suc n) tail' out'
    | panic f (tail', out') ↦ panic f out'
  ]

  -- `ZipWith`; `none` is its panic on less than two outlets.
  unfoldable pub zip_with : List (List Any) → Option (Outcome (Chan R))
  unfolding zip_loop
  zip_with outlets =
      if ltb (length outlets) 2 then none else some (zip_loop (length outlets) 0 outlets make_chan)
