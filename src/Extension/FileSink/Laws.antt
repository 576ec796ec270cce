-- ===== src/Extension/FileSink/Laws.antt =====
-- What a FileSink writes when it does not retry (extension/file.go).
use go_streams.Prelude.{ℕ, true, Option, none, some, List, [], ◌∷◌, ◌≡◌}
use go_streams.Extension.Options.{Attempt}
use go_streams.Extension.Message.{Message, drain_chan_lem}
use go_streams.Extension.WriterSink.{
  Sink, writer_closed, done_closed, record_closing, fresh, give_up,
}
use go_streams.Extension.WriterSink.Laws.{written, cancelling, process_loop_once}
use go_streams.Extension.FileSink.{process}

module _ {W : Type 0} (write : List ℕ → Attempt W) where
  -- The sink that is left: after a failure of `os.Create` nothing has been written or closed but
  -- `done`, and the source is cancelled.
  abbrev pub left : List Message → W → Option W → Sink W
  left msgs w none = record {
    input = [];
    writer = w;
    cancelled = true;
    closings = done_closed ∷ [];
  }
  left msgs w (some file) = written write (writer_closed ∷ done_closed ∷ []) msgs file

-- A FileSink with the default retry function writes its messages to the created file, without those
-- that are neither bytes nor text, until a write fails: then it writes nothing more, cancels the
-- source and drains its input. If the file cannot be created it writes nothing, cancels the source
-- and drains its input as well. On every path it closes the file, if there is one, and after that `done`.
pub file_sink_lem :
    {Logger Context W : Type 0} (write : List ℕ → Attempt W) (logger : Logger) (context : Context)
    (msgs : List Message) (w : W) (file : Option W)
    → process write (cancelling write logger context) file (fresh msgs w) ≡ left write msgs w file
unfolding process record_closing cancelling give_up
file_sink_lem write logger context msgs w none = rw (drain_chan_lem msgs)
file_sink_lem write logger context msgs w (some file) =
    rw (process_loop_once write logger context msgs file)
