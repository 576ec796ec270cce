-- ===== src/Extension/WriterSink.antt =====
-- extension/sink_writer.go: writes its elements to an io.WriteCloser, which is a state `W` with a
-- write that may fail. `cancelled` is the source context that the cancel function may cancel.
pub mod Laws
use go_streams.Prelude.{ℕ, Bool, true, false, Option, none, some, List, [], ◌∷◌, ◌++◌}
use go_streams.Extension.Options.{Attempt, Options, Opt, apply_options}
use go_streams.Extension.Message.{Message, to_bytes, drain_chan}

-- What a sink closes at its end.
pub data Closing : Type 0 where
  writer_closed done_closed : Closing

-- What the sink acts on: the input that it has not read, the writer, and what has been closed, in
-- the order of the calls.
pub record Sink (W : Type 0) : Type 0 where
  pub input : List Message
  pub writer : W
  pub cancelled : Bool
  pub closings : List Closing

-- The fields of a fresh sink, over what `in` is going to deliver.
abbrev pub fresh : {W : Type 0} → List Message → W → Sink W
fresh msgs w = record { input = msgs; writer = w; cancelled = false; closings = [] }

-- `NewWriterSink`; `none` is its error on a nil writer.
unfoldable pub new_writer_sink :
    {Logger Context W : Type 0}
    → Options Logger Context (Sink W)
    → List (Opt Logger Context (Sink W))
    → Option W
    → List Message
    → Option (Options Logger Context (Sink W) × Sink W)
unfolding apply_options
new_writer_sink defaults opts none msgs = none
new_writer_sink defaults opts (some w) msgs = some (apply_options opts defaults, fresh msgs w)

-- `s.writer.Close()`, whose error is only logged, or `close(s.done)`
unfoldable pub record_closing : {W : Type 0} → Closing → Sink W → Sink W
record_closing closing s = record s { closings = s.closings ++ (closing ∷ []) }

module _ {Logger Context W : Type 0} (write : List ℕ → Attempt W)
    (opts : Options Logger Context (Sink W)) where
  -- The function that is handed to `retryFunc`: one write.
  abbrev pub write_attempt : List ℕ → Attempt (Sink W)
  write_attempt b s = (record s { writer = (write b s.writer).0 }, (write b s.writer).1)

  -- The `err != nil` branch: `ctxCancel` and `drainChan`.
  unfoldable pub give_up : Sink W → Sink W
  unfolding drain_chan
  give_up s = let s' = opts.ctx_cancel s in record s' { input = drain_chan s'.input }

  -- The loop of `process` over `in`, which a failure drains, so that nothing is left to range over.
  unfoldable pub process_loop : List Message → Sink W → Sink W
  unfolding to_bytes
  process_loop [] s = s
  process_loop (msg ∷ msgs) s = elim (to_bytes msg) [
    | none ↦ process_loop msgs (record s { input = msgs })
    | some b ↦
        let tried = opts.retry_func opts.ctx (write_attempt b) (record s { input = msgs }) in
        elim tried.1 [ true ↦ process_loop msgs tried.0 | false ↦ give_up tried.0 ]
  ]

  -- `process`: the loop, then `s.writer.Close()`, and on the return the deferred `close(s.done)`
  unfoldable pub process : Sink W → Sink W
  unfolding process_loop record_closing
  process s = record_closing done_closed (record_closing writer_closed (process_loop s.input s))
