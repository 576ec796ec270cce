-- ===== src/Map.antt =====
-- flow/map.go: one element in, one element out, by a pool of workers.
pub mod Laws
use go_streams.Prelude.{
  ℕ, Bool, Option, none, some, List, [], ◌∷◌, ℤ, nonpositive, magnitude, if◌then◌else◌,
}
use go_streams.Pool.{Pool, Reach}
use go_streams.Channel.{Chan, Outcome, forward}

pub record Map (T R : Type 0) : Type 0 where
  pub map_function : T → R
  pub parallelism : ℕ

-- `NewMap`; `none` is its panic on a nonpositive parallelism.
unfoldable pub new_map : {T R : Type 0} → (T → R) → ℤ → Option (Map T R)
new_map f parallelism =
    if nonpositive parallelism
    then none
    else some (record { map_function = f; parallelism = magnitude parallelism })

-- What a worker of `stream` sends for an element: `m.out <- m.mapFunction(element.(T))`.
unfoldable pub map_body : {Any T R : Type 0} → (Any → Option T) → Map T R → Any → Option (List R)
map_body assert m element = elim (assert element) [
  | none ↦ none
  | some t ↦ some (m.map_function t ∷ [])
]

-- `stream`: what its pool of `parallelism` workers can reach from the elements `given`, in `k` steps.
abbrev pub Stream :
    {Any T R : Type 0} → (Any → Option T) → Map T R → List Any → ℕ → Pool Any R → Type 0
Stream assert m given k s = Reach m.parallelism (map_body assert m) given k s

-- `transmit`, over what `Out()` delivers
unfoldable pub transmit : {R : Type 0} → List R → Chan R → Outcome (Chan R)
unfolding forward
transmit es inlet = forward es inlet
