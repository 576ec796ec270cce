-- ===== src/Fold.antt =====
-- flow/fold.go: the rolling fold.
pub mod Laws
use go_streams.Prelude.{Option, List, [], ◌∷◌}
use go_streams.Channel.{Chan, Outcome, ◌>>=◌, make_chan, send, close, expect, forward}

-- `init` and `foldFunction`; the channels are arguments of the loops.
pub record Fold (T R : Type 0) : Type 0 where
  pub init : R
  pub fold_function : T → R → R

-- `NewFold`: the operator and its fresh output channel
unfoldable pub new_fold : {T R : Type 0} → R → (T → R → R) → Fold T R × Chan R
new_fold init f = (record { init = init; fold_function = f }, make_chan)

module _ {Any T R : Type 0} (assert : Any → Option T) (m : Fold T R) where
  -- The loop of `stream`, over what `in` delivers until it is closed.
  fold_loop : R → List Any → Chan R → Outcome (Chan R)
  fold_loop last_folded [] out = close out
  fold_loop last_folded (element ∷ es) out = expect (assert element) out λ t.
      let last = m.fold_function t last_folded in send last out >>= λ out'. fold_loop last es out'

  unfoldable pub stream : List Any → Chan R → Outcome (Chan R)
  unfolding fold_loop
  stream es out = fold_loop m.init es out

-- `transmit`, over what `Out()` delivers
unfoldable pub transmit : {R : Type 0} → List R → Chan R → Outcome (Chan R)
unfolding forward
transmit es inlet = forward es inlet
