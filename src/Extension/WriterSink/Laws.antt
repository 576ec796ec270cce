-- ===== src/Extension/WriterSink/Laws.antt =====
-- What a WriterSink writes when it does not retry (extension/sink_writer.go).
use go_streams.Prelude.{
  ℕ, Bool, true, false, not, none, some, List, [], ◌∷◌, ◌≡◌, refl, ap, ◌∙◌, inl, inr, Bool-cases,
  Option-cases,
}
use go_streams.Extension.Options.{
  Attempt, Options, make_default_options, with_context_cancel, with_retry_func,
}
use go_streams.Extension.Message.{Message, to_bytes, drain_chan_lem}
use go_streams.Extension.WriterSink.{
  Closing, writer_closed, done_closed, record_closing, Sink, fresh, write_attempt, give_up,
  process_loop, process,
}

module _ {W : Type 0} (write : List ℕ → Attempt W) where
  -- The messages written one after the other, with those that are neither bytes nor text left out,
  -- up to the first failure: the writer, and whether there was none.
  abbrev pub write_all : List Message → Attempt W
  write_all [] w = (w, true)
  write_all (msg ∷ msgs) w = elim (to_bytes msg) [
    | none ↦ write_all msgs w
    | some b ↦ elim (write b w).1 [
      | true ↦ write_all msgs (write b w).0
      | false ↦ ((write b w).0, false)
    ]
  ]

  -- What a sink without retries is left with: its input read or drained, and the source cancelled
  -- exactly if a write failed.
  abbrev pub written : List Closing → List Message → W → Sink W
  written closings msgs w = record {
    input = [];
    writer = (write_all msgs w).0;
    cancelled = not (write_all msgs w).1;
    closings = closings;
  }

module _ {Logger Context W : Type 0} (write : List ℕ → Attempt W) (logger : Logger)
    (context : Context) where
  -- The default options, with a cancel function that cancels the source.
  unfoldable pub cancelling : Options Logger Context (Sink W)
  unfolding make_default_options with_context_cancel
  cancelling =
      with_context_cancel (λ s. record s { cancelled = true }) (make_default_options logger context)

  module _ (retry : Context → Attempt (Sink W) → Attempt (Sink W)) where
    -- The same options, with a retry function of the user's.
    unfoldable pub retrying : Options Logger Context (Sink W)
    unfolding cancelling with_retry_func
    retrying = with_retry_func retry cancelling

    -- The retry function does nothing but make writes of the same bytes, which come to `tries`.
    abbrev pub IsRetry : (List ℕ → Attempt W) → Type 0
    IsRetry tries =
        (b : List ℕ) (s : Sink W)
        → retry context (write_attempt write retrying b) s
          ≡ (record s { writer = (tries b s.writer).0 }, (tries b s.writer).1)

    -- How the loop goes on from an attempt.
    abbrev continued : List Message → Sink W × Bool → Sink W
    continued msgs tried = elim tried.1 [
      | true ↦ process_loop write retrying msgs tried.0
      | false ↦ give_up write retrying tried.0
    ]

    process_loop_lem :
        (tries : List ℕ → Attempt W)
        → IsRetry tries
        → (msgs : List Message) (w : W)
        → process_loop write retrying msgs (fresh msgs w) ≡ written tries [] msgs w
    unfolding process_loop retrying cancelling give_up make_default_options with_context_cancel
        with_retry_func
    process_loop_lem tries is_retry [] w = refl
    process_loop_lem tries is_retry (msg ∷ msgs) w = elim (Option-cases (to_bytes msg)) [
      | inl skipped ↦ rw (skipped, process_loop, write_all) (process_loop_lem tries is_retry msgs w)
      | inr (b, converted) ↦ elim (Bool-cases (tries b w).1) [
        | inl success ↦
            rw (converted, process_loop, write_all)
              (ap (continued msgs) (is_retry b (fresh msgs w))
                ∙ (rw success (process_loop_lem tries is_retry msgs (tries b w).0)))
        | inr failure ↦
            rw (converted, process_loop, write_all)
              (ap (continued msgs) (is_retry b (fresh msgs w))
                ∙ (rw failure (rw (drain_chan_lem msgs))))
      ]
    ]

    -- A WriterSink, with any retry function that does nothing but write the same bytes, writes its
    -- messages one after the other, without those that are neither bytes nor text, until the tries for
    -- one have failed: then it writes nothing more, cancels the source and drains its input. On every
    -- path it closes the writer once and after that `done` once.
    pub writer_sink_retries :
        (tries : List ℕ → Attempt W)
        → IsRetry tries
        → (msgs : List Message) (w : W)
        → process write retrying (fresh msgs w)
          ≡ written tries (writer_closed ∷ done_closed ∷ []) msgs w
    unfolding process record_closing
    writer_sink_retries tries is_retry msgs w = rw (process_loop_lem tries is_retry msgs w)

  -- With the default retry function each message is written once.
  pub process_loop_once :
      (msgs : List Message) (w : W)
      → process_loop write cancelling msgs (fresh msgs w) ≡ written write [] msgs w
  unfolding retrying cancelling with_retry_func make_default_options with_context_cancel
  process_loop_once msgs w = process_loop_lem (λ _ f. f) write (λ b s. refl) msgs w

  -- A WriterSink with the default retry function writes each message once.
  writer_sink_lem :
      (msgs : List Message) (w : W)
      → process write cancelling (fresh msgs w)
        ≡ written write (writer_closed ∷ done_closed ∷ []) msgs w
  unfolding retrying cancelling with_retry_func make_default_options with_context_cancel
  writer_sink_lem msgs w = writer_sink_retries (λ _ f. f) write (λ b s. refl) msgs w
