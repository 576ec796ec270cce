-- ===== src/Extension/FileSink.antt =====
-- extension/file.go, the FileSink: the file is a state `W` with a write that may fail. The loop over
-- the input is that of the WriterSink, on the same conversions of an element.
pub mod Laws
use go_streams.Prelude.{ℕ, Bool, true, false, Option, none, some, List, [], ◌∷◌}
use go_streams.Extension.Options.{Attempt, Options, Opt, apply_options}
use go_streams.Extension.Message.{Message, drain_chan}
use go_streams.Extension.WriterSink.{
  Sink, writer_closed, done_closed, record_closing, give_up, process_loop,
}

-- `NewFileSink`: the options applied to the defaults
unfoldable pub new_file_sink :
    {Logger Context W : Type 0}
    → Options Logger Context (Sink W)
    → List (Opt Logger Context (Sink W))
    → Options Logger Context (Sink W)
unfolding apply_options
new_file_sink defaults opts = apply_options opts defaults

module _ {Logger Context W : Type 0} (write : List ℕ → Attempt W)
    (opts : Options Logger Context (Sink W)) where
  -- `process`; `create` is the file that `os.Create` gives, or its failure. The file is closed and
  -- then the channel `done`, in that order of the deferred calls.
  unfoldable pub process : Option W → Sink W → Sink W
  unfolding process_loop record_closing
  process none s = record_closing done_closed (give_up write opts s)
  process (some file) s =
      record_closing done_closed (
        record_closing writer_closed (process_loop write opts s.input (record s { writer = file })))
