-- ===== src/Nats/Streaming/Laws.antt =====
-- What a message does that comes while the streaming source closes (nats/nats_streaming.go).
use go_streams.Prelude.{List, [], ◌∷◌, ◌++◌, ◌≡◌, true, false, map, append-nil, append_assoc}
use go_streams.Channel.{panic, send_on_closed, make_chan}
use go_streams.Nats.Streaming.{Event, handled, cancelled, run}

run-handled :
    {M : Type 0} (ms h : List M) (events : List (Event M))
    → run (map handled ms ++ events) (record { history = h; closed = false })
      ≡ run events (record { history = h ++ ms; closed = false })
unfolding run
run-handled [] h events = rw append-nil
run-handled (m ∷ ms) h events = rw (run-handled ms (h ++ (m ∷ [])) events, append_assoc)

-- A message that the library hands over behind the cancellation of the context, before the
-- subscriptions are removed, makes the process panic: `out` has been closed by then. What came
-- before the cancellation has been sent, in order.
late_message :
    {M : Type 0} (ms : List M) (m : M) (events : List (Event M))
    → run (map handled ms ++ (cancelled ∷ handled m ∷ events)) make_chan
      ≡ panic send_on_closed (record { history = ms; closed = true })
unfolding run
late_message ms m events = run-handled ms [] (cancelled ∷ handled m ∷ events)
