-- ===== src/Extension/Consoles.antt =====
-- extension/sink_ignore.go and extension/sink_stdout.go: sinks that discard or print their elements.
use go_streams.Prelude.{Bool, true, false, List, [], ◌∷◌, ◌++◌, ◌≡◌, ◌∙◌, append-nil, append_assoc}
use go_streams.Extension.Message.{drain_chan}

-- `IgnoreSink`: what `process` has left of what its input delivers.
pub record IgnoreSink (Any : Type 0) : Type 0 where
  pub input : List Any

unfoldable pub process_ignored : {Any : Type 0} → IgnoreSink Any → IgnoreSink Any
unfolding drain_chan
process_ignored s = record s { input = drain_chan s.input }

-- `StdoutSink`, with the lines that have been printed.
pub record StdoutSink (Any : Type 0) : Type 0 where
  pub input : List Any
  pub printed : List Any
  pub done : Bool

-- `NewStdoutSink`, over what its input is going to deliver.
unfoldable pub new_stdout_sink : {Any : Type 0} → List Any → StdoutSink Any
new_stdout_sink input = record { input = input; printed = []; done = false }

-- The loop of `process` over `in`.
unfoldable pub print_loop : {Any : Type 0} → List Any → StdoutSink Any → StdoutSink Any
print_loop [] s = record s { input = [] }
print_loop (e ∷ es) s = print_loop es (record s { input = es; printed = s.printed ++ (e ∷ []) })

-- `process` of the StdoutSink, with the deferred `close(stdout.done)`.
unfoldable pub process_printed : {Any : Type 0} → StdoutSink Any → StdoutSink Any
unfolding print_loop
process_printed s = record (print_loop s.input s) { done = true }

print_loop_lem :
    {Any : Type 0} (es : List Any) (s : StdoutSink Any)
    → print_loop es s ≡ record s { input = []; printed = s.printed ++ es }
unfolding print_loop
print_loop_lem [] s = rw append-nil
print_loop_lem (e ∷ es) s =
    print_loop_lem es (record s { input = es; printed = s.printed ++ (e ∷ []) }) ∙ (rw append_assoc)

-- A StdoutSink prints all its elements, in order, before it closes `done`.
stdout_sink_lem :
    {Any : Type 0} (es : List Any)
    → process_printed (new_stdout_sink es) ≡ record { input = []; printed = es; done = true }
unfolding process_printed new_stdout_sink
stdout_sink_lem es = rw (print_loop_lem es (record { input = es; printed = []; done = false }))
