-- ===== src/Aerospike/Sink/Laws.antt =====
-- What the Aerospike sink writes (aerospike/aerospike.go).
use go_streams.Prelude.{
  ℕ, ◌≤◌, ◌<◌, Bool, true, false, Option, none, some, List, [], ◌∷◌, ◌++◌, ◌≡◌, refl, sym, ap, ◌∙◌,
  arith, All, All-append, length, length-append, length-eq-zero, concat, map, append-nil,
  append_assoc, ltb, ◌==◌, magnitude, Bool-cases, Option-cases, inl, inr, ltb→lt,
}
use go_streams.Aerospike.Sink.{
  Record, put_loop, batch_write, SinkConfig, Call, put, batch_operate, Sink, in_batch_mode,
  new_sink, flush_buffer, write_record, Event, record_pointer, record_value, bin_map, unsupported,
  tick, has_ticker, record_of, handle, process_stream,
}

module _ {R : Type 0} where
  -- The records of a call.
  abbrev pub written : Call R → List R
  written (put r) = r ∷ []
  written (batch_operate rs) = rs

  -- In batch mode the calls are for one to `BatchSize` records; else they are single puts.
  abbrev pub IsAllowed : SinkConfig → Call R → Type 0
  IsAllowed config (put r) = in_batch_mode config ≡ false
  IsAllowed config (batch_operate rs) =
      (in_batch_mode config ≡ true) × (1 ≤ length rs) × (length rs ≤ magnitude config.batch_size)

  -- After the records `seen`.
  record Writing (config : SinkConfig) (seen : List R) (s : Sink R) : Type 0 where
    same_config : s.config ≡ config
    room : in_batch_mode config ≡ true → length s.buf ≤ magnitude config.batch_size
    unused : in_batch_mode config ≡ false → s.buf ≡ []
    allowed : All (IsAllowed config) s.calls
    kept : concat (map written s.calls) ++ s.buf ≡ seen

  concat-written-snoc :
      (calls : List (Call R)) (c : Call R)
      → concat (map written (calls ++ (c ∷ []))) ≡ concat (map written calls) ++ written c
  concat-written-snoc [] c = append-nil (written c)
  concat-written-snoc (d ∷ calls) c =
      ap (λ l. written d ++ l) (concat-written-snoc calls c)
      ∙ sym (append_assoc (written d) (concat (map written calls)) (written c))

  added-Writing :
      (config : SinkConfig) (seen : List R) (s : Sink R) (r : R)
      → in_batch_mode config ≡ true
      → length s.buf < magnitude config.batch_size
      → Writing config seen s
      → Writing config (seen ++ (r ∷ [])) (record s { buf = s.buf ++ (r ∷ []) })
  added-Writing config seen s r batch short inv = record {
    same_config = same_config;
    room = λ _. omega (arith, short, length-append {0} s.buf (r ∷ []));
    unused = λ single. cc (batch, single);
    allowed = allowed;
    kept =
        sym (append_assoc (concat (map written s.calls)) s.buf (r ∷ []))
        ∙ ap (λ l. l ++ (r ∷ [])) kept;
  }
    where
      open inv use {same_config, allowed, kept}

  flush_buffer-Writing :
      (config : SinkConfig) (seen : List R) (s : Sink R)
      → Writing config seen s
      → Writing config seen (flush_buffer s) × ((flush_buffer s).buf ≡ [])
  unfolding flush_buffer
  flush_buffer-Writing config seen s inv = elim (Bool-cases (in_batch_mode s.config)) [
    | inl batch ↦ elim (Bool-cases (ltb 0 (length s.buf))) [
      | inl filled ↦
          rw (batch, filled)
            (
              record {
                same_config = same_config;
                room = λ _. omega arith;
                unused = λ _. refl;
                allowed = All-append (IsAllowed config) s.calls (batch_operate s.buf ∷ []) allowed (
                  (as_config batch, omega (arith, ltb→lt _ _ filled), room (as_config batch)),
                  tt,
                );
                kept = append-nil _ ∙ concat-written-snoc s.calls (batch_operate s.buf) ∙ kept;
              },
              refl,
            )
      | inr empty ↦ rw (batch, empty) (inv, length-eq-zero s.buf (ground (arith, empty)))
    ]
    | inr single ↦ rw single (inv, unused (as_config single))
  ]
    where
      open inv use {same_config, room, unused, allowed, kept}

      as_config : {b : Bool} → in_batch_mode s.config ≡ b → in_batch_mode config ≡ b
      as_config e = sym (ap in_batch_mode same_config) ∙ e

  write_record-Writing :
      (config : SinkConfig) (seen : List R) (s : Sink R) (r : R)
      → Writing config seen s
      → Writing config (seen ++ (r ∷ [])) (write_record r s)
  unfolding write_record
  write_record-Writing config seen s r inv = elim (Bool-cases (in_batch_mode s.config)) [
    | inl batch ↦ elim (Bool-cases (length s.buf == magnitude s.config.batch_size)) [
      | inl full ↦
          let (flushed, emptied) = flush_buffer-Writing config seen s inv in
          rw (batch, full)
            (added-Writing config seen (flush_buffer s) r (as_config batch)
              (room_at_all emptied (as_config batch)) flushed)
      | inr short ↦
          rw (batch, short)
            (added-Writing config seen s r (as_config batch)
              (ground (arith, short, same_config, room (as_config batch))) inv)
    ]
    | inr single ↦ rw single (record {
      same_config = same_config;
      room = λ batch. cc (batch, as_config single);
      unused = unused;
      allowed = All-append (IsAllowed config) s.calls (put r ∷ []) allowed (as_config single, tt);
      kept = put_kept (unused (as_config single));
    })
  ]
    where
      open inv use {same_config, room, unused, allowed, kept}

      as_config : {b : Bool} → in_batch_mode s.config ≡ b → in_batch_mode config ≡ b
      as_config e = sym (ap in_batch_mode same_config) ∙ e

      room_at_all :
          {buf : List R}
          → buf ≡ []
          → in_batch_mode config ≡ true
          → length buf < magnitude config.batch_size
      room_at_all e batch = rw e (omega (arith, ltb→lt 1 _ batch))

      put_kept :
          s.buf ≡ [] → concat (map written (s.calls ++ (put r ∷ []))) ++ s.buf ≡ seen ++ (r ∷ [])
      put_kept e = rw e (
          append-nil _
          ∙ concat-written-snoc s.calls (put r)
          ∙ ap (λ l. l ++ (r ∷ [])) (sym (append-nil _) ∙ (rw e at kept)))

module _ {R BinMap : Type 0} (to_record : BinMap → Option R) where
  -- The records of the events, in order.
  abbrev pub records : List (Event R BinMap) → List R
  records [] = []
  records (event ∷ events) = elim (record_of to_record event) [
    | none ↦ records events
    | some r ↦ r ∷ records events
  ]

  new_sink-Writing : (config : SinkConfig) → Writing {R = R} config [] (new_sink config)
  unfolding new_sink
  new_sink-Writing config = record {
    same_config = refl;
    room = λ _. omega arith;
    unused = λ _. refl;
    allowed = tt;
    kept = refl;
  }

  process_stream-Writing :
      (config : SinkConfig) (events : List (Event R BinMap)) (seen : List R) (s : Sink R)
      → Writing config seen s
      → Writing config (seen ++ records events) (process_stream to_record events s)
        × ((process_stream to_record events s).buf ≡ [])
        × ((process_stream to_record events s).done ≡ true)
  unfolding process_stream handle
  process_stream-Writing config [] seen s inv =
      let (inv', emptied) = flush_buffer-Writing config seen s inv in
      rw append-nil (
        record {
          same_config = inv'.same_config;
          room = inv'.room;
          unused = inv'.unused;
          allowed = inv'.allowed;
          kept = inv'.kept;
        },
        emptied,
        refl,
      )
  process_stream-Writing config (record_pointer r ∷ events) seen s inv =
      rw append_assoc at
        (process_stream-Writing config events _ _ (write_record-Writing config seen s r inv))
  process_stream-Writing config (record_value r ∷ events) seen s inv =
      rw append_assoc at
        (process_stream-Writing config events _ _ (write_record-Writing config seen s r inv))
  process_stream-Writing config (bin_map b ∷ events) seen s inv =
      elim (Option-cases (to_record b)) [
        | inl bad ↦
            rw (bad, records, process_stream, handle)
              (process_stream-Writing config events seen s inv)
        | inr (r, good) ↦
            rw (good, records, process_stream, handle)
              (rw append_assoc at (
                process_stream-Writing config events _ _
                  (write_record-Writing config seen s r inv)))
      ]
  process_stream-Writing config (unsupported ∷ events) seen s inv =
      process_stream-Writing config events seen s inv
  process_stream-Writing config (tick ∷ events) seen s inv =
      elim (Bool-cases (has_ticker s.config)) [
        | inl ticks ↦
            rw (ticks, process_stream, handle)
              (process_stream-Writing config events seen (flush_buffer s)
                (flush_buffer-Writing config seen s inv).0)
        | inr silent ↦
            rw (silent, process_stream, handle) (process_stream-Writing config events seen s inv)
      ]

  -- Over any sequence of elements and ticks until its input is closed, the sink of the Aerospike
  -- connector writes the records of its elements in order, each of them once, and is done with an
  -- empty buffer. In batch mode every call of the client is a batch of one to `BatchSize` records;
  -- else every call is for a single one.
  pub process_stream_lem :
      (config : SinkConfig) (events : List (Event R BinMap)) {s : Sink R}
      → process_stream to_record events (new_sink config) ≡ s
      → All (IsAllowed config) s.calls
        × (concat (map written s.calls) ≡ records events)
        × (s.buf ≡ [])
        × (s.done ≡ true)
  process_stream_lem config events {s} e =
      let (inv, emptied, done) =
        process_stream-Writing config events [] (new_sink config) (new_sink-Writing config) in
      let kept : concat (map written (process_stream to_record events (new_sink config)).calls)
          ≡ records events =
        sym (append-nil _) ∙ (rw emptied at inv.kept) in
      rw (← e) (inv.allowed, kept, emptied, done)

put_loop-append :
    {Value : Type 0} (ops bins : List (List ℕ × Value)) → put_loop ops bins ≡ ops ++ bins
unfolding put_loop
put_loop-append ops [] = sym (append-nil ops)
put_loop-append ops (bin ∷ bins) =
    put_loop-append (ops ++ (bin ∷ [])) bins ∙ append_assoc ops (bin ∷ []) bins

-- A batch write puts the bins of its record, each once.
batch_write-bins :
    {Key Value Policy : Type 0} (policy : Policy) (r : Record Key Value)
    → (batch_write policy r).puts ≡ r.bins
unfolding batch_write
batch_write-bins policy r = put_loop-append [] r.bins
