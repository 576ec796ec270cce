-- ===== src/Reduce.antt =====
-- flow/reduce.go: the rolling reduce, whose accumulator is an `any` that is nil at first.
pub mod Laws
use go_streams.Prelude.{Option, none, some, List, [], ◌∷◌, if◌then◌else◌}
use go_streams.Channel.{Chan, Outcome, ◌>>=◌, make_chan, send, close, expect, forward}
use go_streams.Element.{GoType}

pub record Reduce (T : Type 0) : Type 0 where
  pub reduce_function : T → T → T

-- `NewReduce`: the operator and its fresh output channel
unfoldable pub new_reduce : {Any T : Type 0} → (T → T → T) → Reduce T × Chan Any
new_reduce f = (record { reduce_function = f }, make_chan)

module _ {Any T : Type 0} (g : GoType Any T) (r : Reduce T) where
  open g use {box, assert, nil, is_nil}

  -- `r.reduceFunction(lastReduced.(T), element.(T))`; `none` is a failed assertion.
  reduced : Any → Any → Option Any
  reduced last element = elim (assert last) [
    | none ↦ none
    | some l ↦ elim (assert element) [ none ↦ none | some t ↦ some (box (r.reduce_function l t)) ]
  ]

  -- The `if` of the loop: what `lastReduced` becomes.
  pub reduce_step : Any → Any → Option Any
  unfolding reduced
  reduce_step last element = if is_nil last then some element else reduced last element

  -- The loop of `stream`, over what `in` delivers until it is closed.
  unfoldable pub reduce_loop : Any → List Any → Chan Any → Outcome (Chan Any)
  reduce_loop last [] out = close out
  reduce_loop last (element ∷ es) out =
      expect (reduce_step last element) out
        λ next. send next out >>= λ out'. reduce_loop next es out'

  unfoldable pub stream : List Any → Chan Any → Outcome (Chan Any)
  unfolding reduce_loop reduce_step
  stream es out = reduce_loop nil es out

-- `transmit`, over what `Out()` delivers
unfoldable pub transmit : {Any : Type 0} → List Any → Chan Any → Outcome (Chan Any)
unfolding forward
transmit es inlet = forward es inlet
