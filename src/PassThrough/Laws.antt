-- ===== src/PassThrough/Laws.antt =====
-- What a PassThrough delivers (flow/pass_through.go), and what happens on a shared inlet.
use go_streams.Prelude.{true, false, List, ◌++◌, ◌≡◌, refl}
use go_streams.Channel.{Chan, Outcome, ok, panic, ◌>>=◌, make_chan}
use go_streams.Channel.Forward.{forward_open, forward_late, late_fault}
use go_streams.PassThrough.{stream, transmit, to}

module _ {Any : Type 0} where
  -- `stream` sends on `out` exactly the elements of `in`, in order, and closes `out`; `To` adds the
  -- elements behind what the open inlet of the sink already holds, closes it, and then waits for
  -- the sink.
  to-stream :
      (es : List Any) (inlet : Chan Any) (await_completion : Chan Any → Outcome (Chan Any))
      → inlet.closed ≡ false
      → (stream es make_chan ≡ ok (record { history = es; closed = true }))
        × (to es inlet await_completion
            ≡ await_completion (record { history = inlet.history ++ es; closed = true }))
  unfolding stream to
  to-stream es inlet await_completion open_inlet =
      (forward_open es make_chan refl, rw (forward_open es inlet open_inlet))

  -- Two transmissions to one open inlet always panic: the first one closes the inlet, and the other
  -- one then sends on a closed channel, or closes it again if it has nothing to send.
  transmit_twice :
      (es fs : List Any) (inlet : Chan Any)
      → inlet.closed ≡ false
      → (transmit es inlet >>= λ inlet'. transmit fs inlet')
        ≡ panic (late_fault fs) (record { history = inlet.history ++ es; closed = true })
  unfolding transmit
  transmit_twice es fs inlet open_inlet =
      rw (forward_open es inlet open_inlet) (forward_late (inlet.history ++ es) fs)
