-- ===== src/PassThrough.antt =====
-- flow/pass_through.go: the operator that retransmits its elements. The `go` statements of its
-- constructor and of `Via` start the two loops below.
pub mod Laws
use go_streams.Prelude.{List}
use go_streams.Channel.{Chan, Outcome, ◌>>=◌, make_chan, forward}

-- `PassThrough`: its two channels.
pub record PassThrough (Any : Type 0) : Type 0 where
  pub inlet : Chan Any
  pub out : Chan Any

-- `NewPassThrough`
unfoldable pub new_pass_through : {Any : Type 0} → PassThrough Any
new_pass_through = record { inlet = make_chan; out = make_chan }

module _ {Any : Type 0} where
  -- `stream`, over the elements that `in` delivers until it is closed
  unfoldable pub stream : List Any → Chan Any → Outcome (Chan Any)
  unfolding forward
  stream es out = forward es out

  -- `transmit`, over the elements that `Out()` delivers
  unfoldable pub transmit : List Any → Chan Any → Outcome (Chan Any)
  unfolding forward
  transmit es inlet = forward es inlet

  -- `To`: forward everything, then wait for the sink.
  unfoldable pub to : List Any → Chan Any → (Chan Any → Outcome (Chan Any)) → Outcome (Chan Any)
  unfolding transmit
  to es inlet await_completion = do inlet' ← transmit es inlet; await_completion inlet'

  -- `Via`: the `go` statement starts `transmit` to the inlet of the flow.
  unfoldable pub via : List Any → Chan Any → Outcome (Chan Any)
  unfolding transmit
  via es inlet = transmit es inlet
