-- ===== src/Aerospike/Sink.antt =====
-- The Sink of aerospike/aerospike.go. What it asks of the client is its output; that a write fails is
-- logged only.
pub mod Laws
use go_streams.Prelude.{
  ℕ, Bool, true, false, Option, none, some, List, [], ◌∷◌, ◌++◌, ◌&&◌, ◌==◌, length, ltb, ℤ,
  magnitude, if◌then◌else◌,
}

-- The part of `SinkConfig` that the goroutine looks at; the interval is that of the flushes.
pub record SinkConfig : Type 0 where
  pub batch_size : ℤ
  pub buffer_flush_interval : ℕ

-- `Record`: a key, and the bins in the order in which a `range` over the map meets them.
pub record Record (Key Value : Type 0) : Type 0 where
  pub key : Key
  pub bins : List (List ℕ × Value)

-- A batch write of the client library: a key and its operations, which put a bin each.
pub record BatchWrite (Key Value Policy : Type 0) : Type 0 where
  pub policy : Policy
  pub key : Key
  pub puts : List (List ℕ × Value)

-- The loop of `batchWrite`, with the operations so far.
put_loop : {Value : Type 0} → List (List ℕ × Value) → List (List ℕ × Value) → List (List ℕ × Value)
put_loop ops [] = ops
put_loop ops (bin ∷ bins) = put_loop (ops ++ (bin ∷ [])) bins

-- `batchWrite`
unfoldable pub batch_write :
    {Key Value Policy : Type 0} → Policy → Record Key Value → BatchWrite Key Value Policy
unfolding put_loop
batch_write policy r = record { policy = policy; key = r.key; puts = put_loop [] r.bins }

-- A call of the client: `Put`, or `BatchOperate` on batch writes of the records.
pub data Call (R : Type 0) : Type 0 where
  put : R → Call R
  batch_operate : List R → Call R

pub record Sink (R : Type 0) : Type 0 where
  pub config : SinkConfig
  pub buf : List R
  pub calls : List (Call R)
  pub done : Bool

-- `as.config.BatchSize > 1`
abbrev pub in_batch_mode : SinkConfig → Bool
in_batch_mode config = ltb 1 (magnitude config.batch_size)

-- `NewSink`
unfoldable pub new_sink : {R : Type 0} → SinkConfig → Sink R
new_sink config = record { config = config; buf = []; calls = []; done = false }

module _ {R : Type 0} where
  -- `flushBuffer`
  unfoldable pub flush_buffer : Sink R → Sink R
  flush_buffer s =
      if in_batch_mode s.config && ltb 0 (length s.buf)
      then record s { calls = s.calls ++ (batch_operate s.buf ∷ []); buf = [] }
      else s

  -- `writeRecord`
  unfoldable pub write_record : R → Sink R → Sink R
  write_record r s =
      if in_batch_mode s.config
      then (let s' = if length s.buf == magnitude s.config.batch_size then flush_buffer s else s in
          record s' { buf = s'.buf ++ (r ∷ []) })
      else record s { calls = s.calls ++ (put r ∷ []) }

-- What the `select` of `processStream` takes: an element, by its dynamic type, or a tick.
pub data Event (R BinMap : Type 0) : Type 0 where
  record_pointer record_value : R → Event R BinMap
  bin_map : BinMap → Event R BinMap
  unsupported tick : Event R BinMap

-- There is a ticker only in batch mode, with an interval.
abbrev pub has_ticker : SinkConfig → Bool
has_ticker config = in_batch_mode config && ltb 0 config.buffer_flush_interval

module _ {R BinMap : Type 0} (to_record : BinMap → Option R) where
  -- The record of an event that has one; a bin map has one if it can be encoded and has a key.
  abbrev pub record_of : Event R BinMap → Option R
  record_of (record_pointer r) = some r
  record_of (record_value r) = some r
  record_of (bin_map b) = to_record b
  record_of _ = none

  -- One turn of the loop.
  unfoldable pub handle : Event R BinMap → Sink R → Sink R
  handle tick s = if has_ticker s.config then flush_buffer s else s
  handle event s = elim (record_of event) [ none ↦ s | some r ↦ write_record r s ]

  -- `processStream`, over the events until `in` is closed
  unfoldable pub process_stream : List (Event R BinMap) → Sink R → Sink R
  process_stream [] s = record (flush_buffer s) { done = true }
  process_stream (event ∷ events) s = process_stream events (handle event s)
