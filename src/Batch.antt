-- ===== src/Batch.antt =====
-- flow/batch.go: batches by size or by time.
pub mod Laws
pub mod Link
use go_streams.Prelude.{
  ℕ, ◌≤◌, ◌<◌, Option, none, some, List, [], ◌∷◌, ◌++◌, length, ltb, leb, ℤ, nonpositive, magnitude,
  if◌then◌else◌,
}
use go_streams.Channel.{
  Chan, Outcome, ok, panic, nonpositive_ticker, ◌>>=◌, make_chan, send, close, expect, forward,
}

-- The operator with its buffer and output channel. The time interval sets the ticker alone; its sign
-- decides whether `time.NewTicker` panics.
pub record Batch (T : Type 0) : Type 0 where
  pub max_batch_size : ℕ
  pub time_interval : ℤ
  pub out : Chan (List T)
  pub buffer : List T

-- `NewBatch`; `none` is its panic on a nonpositive batch size.
unfoldable pub new_batch : {T : Type 0} → ℤ → ℤ → Option (Batch T)
new_batch max_batch_size time_interval =
    if nonpositive max_batch_size
    then none
    else some (record {
      max_batch_size = magnitude max_batch_size;
      time_interval = time_interval;
      out = make_chan;
      buffer = [];
    })

-- What the `select` of `batchStream` receives while `in` is open: an element, or a tick. When the
-- ticks come is left open, so that `ticker.Reset` does not show.
pub data Event (Any : Type 0) : Type 0 where
  element : Any → Event Any
  tick : Event Any

-- `flush`
flush : {T : Type 0} → Batch T → Outcome (Batch T)
flush b = elim (send b.buffer b.out) [
  | ok c ↦ ok (record b { out = c; buffer = [] })
  | panic e c ↦ panic e (record b { out = c })
]

flush_nonempty : {T : Type 0} → Batch T → Outcome (Batch T)
unfolding flush
flush_nonempty b = if ltb 0 (length b.buffer) then flush b else ok b

-- The `ok` branch of the first case, behind the assertion.
on_element : {T : Type 0} → T → Batch T → Outcome (Batch T)
unfolding flush
on_element t b =
    let b' = record b { buffer = b.buffer ++ (t ∷ []) } in
    if leb b.max_batch_size (length b'.buffer) then flush b' else ok b'

close_out : {T : Type 0} → Batch T → Outcome (Batch T)
close_out b = elim (close b.out) [
  | ok c ↦ ok (record b { out = c })
  | panic e c ↦ panic e (record b { out = c })
]

-- The `else` branch of the first case, when `in` is closed.
on_close : {T : Type 0} → Batch T → Outcome (Batch T)
unfolding flush_nonempty close_out
on_close b = flush_nonempty b >>= λ b'. close_out b'

module _ {Any T : Type 0} (assert : Any → Option T) where
  -- The loop of `batchStream`, over the events until `in` is closed
  unfoldable pub batch_loop : List (Event Any) → Batch T → Outcome (Batch T)
  unfolding on_element on_close flush_nonempty
  batch_loop [] b = on_close b
  batch_loop (element e ∷ evs) b =
      expect (assert e) b λ t. on_element t b >>= λ b'. batch_loop evs b'
  batch_loop (tick ∷ evs) b = flush_nonempty b >>= λ b'. batch_loop evs b'

  -- `batchStream`: `time.NewTicker` panics on a nonpositive interval, before anything is received.
  unfoldable pub batch_stream : List (Event Any) → Batch T → Outcome (Batch T)
  unfolding batch_loop
  batch_stream evs b =
      if nonpositive b.time_interval then panic nonpositive_ticker b else batch_loop evs b

-- `transmit`, over what `out` delivers
unfoldable pub transmit : {T : Type 0} → List (List T) → Chan (List T) → Outcome (Chan (List T))
unfolding forward
transmit batches inlet = forward batches inlet
