-- ===== src/Examples/Loops.antt =====
-- The operators with one goroutine (flow/batch.go, flow/fold.go, flow/reduce.go,
-- flow/pass_through.go) and the file connectors and the writer sink (extension/).
use go_streams.Prelude.{
  ℕ, Bool, true, false, some, List, [], ◌∷◌, ◌++◌, ◌≡◌, refl, pos, Bool-cases, inl, inr, length,
  ltb, if◌then◌else◌,
}
use go_streams.Channel.{make_chan}
use go_streams.Element.{typed_prefix, all_typed}
use go_streams.Batch.{Batch, new_batch, Event, element, tick, batch_stream}
use go_streams.Batch.Laws.{elements, Ends, batch_stream_lem}
use go_streams.Extension.Message.{Message, bytes, other}
use go_streams.Extension.WriterSink.{writer_closed, done_closed, Sink, fresh}
use go_streams.Extension.WriterSink.Laws.{retrying, IsRetry, written, writer_sink_retries}
use go_streams.Examples.Data.{Dynamic, number, as_number}

-- Batches of at most two, with a tick after the third element.
abbrev pairs : Batch ℕ
pairs = record { max_batch_size = 2; time_interval = pos 10; out = make_chan; buffer = [] }

pairs-made : new_batch (pos 2) (pos 10) ≡ some pairs
unfolding new_batch
pairs-made = refl

abbrev three_and_tick : List (Event Dynamic)
three_and_tick =
    element (number 1) ∷ element (number 2) ∷ element (number 3) ∷ tick ∷ element (number 4) ∷ []

batch_stream_example :
    Ends 2
      (all_typed as_number (elements three_and_tick))
      (typed_prefix as_number (elements three_and_tick))
      (batch_stream as_number three_and_tick pairs)
batch_stream_example =
    batch_stream_lem as_number 2 (pos 2) (pos 10) three_and_tick pairs-made refl refl

-- A writer that takes three bytes in all: what it holds, and whether the write fitted.
abbrev write_three : List ℕ → List ℕ → List ℕ × Bool
write_three b w = if ltb 3 (length (w ++ b)) then (w, false) else (w ++ b, true)

abbrev messages : List Message
messages = bytes (1 ∷ 2 ∷ []) ∷ other ∷ bytes (3 ∷ 4 ∷ []) ∷ bytes (5 ∷ []) ∷ []

-- One more try after a failure.
abbrev twice : {S : Type 0} → (S → S × Bool) → S → S × Bool
twice attempt s = elim (attempt s).1 [ true ↦ attempt s | false ↦ attempt (attempt s).0 ]

abbrev retry_once :
    Bool → (Sink (List ℕ) → Sink (List ℕ) × Bool) → Sink (List ℕ) → Sink (List ℕ) × Bool
retry_once context = twice

retry_once-IsRetry : IsRetry write_three false false retry_once (λ b. twice (write_three b))
retry_once-IsRetry b s = elim (Bool-cases (write_three b s.writer).1) [
  | inl success ↦ rw (success, twice)
  | inr failure ↦ rw (failure, twice)
]

writer_sink_retries_example :
    go_streams.Extension.WriterSink.process write_three
      (retrying write_three false false retry_once)
      (fresh messages [])
    ≡ written (λ b. twice (write_three b)) (writer_closed ∷ done_closed ∷ []) messages []
writer_sink_retries_example =
    writer_sink_retries write_three false false retry_once (λ b. twice (write_three b))
      retry_once-IsRetry messages []
