-- ===== src/FlatMap.antt =====
-- flow/flat_map.go: zero or more elements for each, by a pool of workers; and `Flatten` of
-- flow/util.go.
pub mod Laws
use go_streams.Prelude.{
  ℕ, Bool, Option, none, some, List, [], ◌∷◌, ℤ, nonpositive, magnitude, if◌then◌else◌,
}
use go_streams.Pool.{Pool, Reach}
use go_streams.Channel.{Chan, Outcome, forward}

pub record FlatMap (T R : Type 0) : Type 0 where
  pub flat_map_function : T → List R
  pub parallelism : ℕ

-- `NewFlatMap`; `none` is its panic on a nonpositive parallelism.
unfoldable pub new_flat_map : {T R : Type 0} → (T → List R) → ℤ → Option (FlatMap T R)
new_flat_map f parallelism =
    if nonpositive parallelism
    then none
    else some (record { flat_map_function = f; parallelism = magnitude parallelism })

-- What a worker of `stream` sends for an element: the items of the function's result, one by one.
unfoldable pub flat_map_body :
    {Any T R : Type 0} → (Any → Option T) → FlatMap T R → Any → Option (List R)
flat_map_body assert fm element = elim (assert element) [
  | none ↦ none
  | some t ↦ some (fm.flat_map_function t)
]

-- `Flatten`: the flat map of the identity, over elements that are slices
unfoldable pub flatten : {T : Type 0} → ℤ → Option (FlatMap (List T) T)
unfolding new_flat_map
flatten parallelism = new_flat_map (λ element. element) parallelism

-- `stream`: what its pool of `parallelism` workers can reach from the elements `given`, in `k` steps.
abbrev pub Stream :
    {Any T R : Type 0} → (Any → Option T) → FlatMap T R → List Any → ℕ → Pool Any R → Type 0
Stream assert m given k s = Reach m.parallelism (flat_map_body assert m) given k s

-- `transmit`, over what `Out()` delivers
unfoldable pub transmit : {R : Type 0} → List R → Chan R → Outcome (Chan R)
unfolding forward
transmit es inlet = forward es inlet
