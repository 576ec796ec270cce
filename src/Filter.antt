-- ===== src/Filter.antt =====
-- flow/filter.go: the elements that match a predicate, by a pool of workers.
pub mod Laws
use go_streams.Prelude.{
  ℕ, Bool, Option, none, some, List, [], ◌∷◌, ℤ, nonpositive, magnitude, if◌then◌else◌,
}
use go_streams.Pool.{Pool, Reach}
use go_streams.Channel.{Chan, Outcome, forward}

pub record Filter (T : Type 0) : Type 0 where
  pub filter_predicate : T → Bool
  pub parallelism : ℕ

-- `NewFilter`; `none` is its panic on a nonpositive parallelism.
unfoldable pub new_filter : {T : Type 0} → (T → Bool) → ℤ → Option (Filter T)
new_filter p parallelism =
    if nonpositive parallelism
    then none
    else some (record { filter_predicate = p; parallelism = magnitude parallelism })

-- What a worker of `stream` sends for an element: the element itself, if its value as a `T` passes.
unfoldable pub filter_body :
    {Any T : Type 0} → (Any → Option T) → Filter T → Any → Option (List Any)
filter_body assert f element = elim (assert element) [
  | none ↦ none
  | some t ↦ some (if f.filter_predicate t then element ∷ [] else [])
]

-- `stream`: what its pool of `parallelism` workers can reach from the elements `given`, in `k` steps.
abbrev pub Stream :
    {Any T : Type 0} → (Any → Option T) → Filter T → List Any → ℕ → Pool Any Any → Type 0
Stream assert m given k s = Reach m.parallelism (filter_body assert m) given k s

-- `transmit`, over what `Out()` delivers
unfoldable pub transmit : {Any : Type 0} → List Any → Chan Any → Outcome (Chan Any)
unfolding forward
transmit es inlet = forward es inlet
