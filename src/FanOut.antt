-- ===== src/FanOut.antt =====
-- `FanOut` of flow/util.go: every element to every flow.
pub mod Laws
use go_streams.Prelude.{ℕ, zero, suc, Option, none, some, List, [], ◌∷◌}
use go_streams.Channel.{Chan, Outcome, ok, panic, ◌>>=◌, make_chan, send, close}

module _ {Any : Type 0} where
  -- The loop that makes the flows: `magnitude` of them.
  unfoldable pub make_flows : ℕ → List (Chan Any)
  make_flows zero = []
  make_flows (suc n) = make_chan ∷ make_flows n

  -- An operation on each flow in turn, as in `for _, flow := range out`.
  each : (Chan Any → Outcome (Chan Any)) → List (Chan Any) → Outcome (List (Chan Any))
  each op [] = ok []
  each op (c ∷ cs) = elim (op c) [
    | panic e c' ↦ panic e (c' ∷ cs)
    | ok c' ↦ elim (each op cs) [ ok cs' ↦ ok (c' ∷ cs') | panic e cs' ↦ panic e (c' ∷ cs') ]
  ]

  -- The goroutine, over what the outlet delivers
  unfoldable pub fan_out : List Any → List (Chan Any) → Outcome (List (Chan Any))
  unfolding each
  fan_out [] flows = each close flows
  fan_out (e ∷ es) flows = each (send e) flows >>= λ flows'. fan_out es flows'
