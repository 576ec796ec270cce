-- ===== src/Batch/Laws.antt =====
-- What a Batch sends (flow/batch.go).
use go_streams.Prelude.{
  ℕ, ◌+◌, ◌≤◌, ◌<◌, Bool, true, false, Option, some, List, [], ◌∷◌, ◌++◌, ◌≡◌, refl, sym, ◌∙◌, ap,
  append-nil, append_assoc, arith, length, length-append, All, All-append, concat, concat-snoc, ℤ,
  nonpositive, inl, inr, Option-cases, Bool-cases, leb, ltb, ltb→lt, length-eq-zero,
}
use go_streams.Channel.{Outcome, ok, panic, bad_assertion, nonpositive_ticker, make_chan}
use go_streams.Element.{typed_prefix, all_typed}
use go_streams.Batch.{
  Batch, new_batch, Event, element, tick, flush, flush_nonempty, on_element, close_out, on_close,
  batch_loop, batch_stream,
}

-- The elements among the events.
abbrev pub elements : {Any : Type 0} → List (Event Any) → List Any
elements [] = []
elements (element e ∷ evs) = e ∷ elements evs
elements (tick ∷ evs) = elements evs

-- A batch is not empty, and not larger than the maximum.
abbrev pub IsSized : {T : Type 0} → ℕ → List T → Type 0
IsSized max batch = (1 ≤ length batch) × (length batch ≤ max)

-- While the goroutine runs: the batches sent and the buffer hold `seen`, in order.
record Open {T : Type 0} (max : ℕ) (seen : List T) (b : Batch T) : Type 0 where
  positive : 1 ≤ max
  limit : b.max_batch_size ≡ max
  room : length b.buffer < max
  unclosed : b.out.closed ≡ false
  sized : All (IsSized max) b.out.history
  kept : concat b.out.history ++ b.buffer ≡ seen

-- What is left at the end: everything sent in batches and the output closed; or, after a panic on
-- an element of another type, the elements before it, some of them unsent.
abbrev pub Ends : {T : Type 0} → ℕ → Bool → List T → Outcome (Batch T) → Type 0
Ends max typed seen (ok b) =
    (typed ≡ true)
    × (b.out.closed ≡ true)
    × (concat b.out.history ≡ seen)
    × All (IsSized max) b.out.history
Ends max typed seen (panic e b) =
    (typed ≡ false)
    × (e ≡ bad_assertion)
    × (b.out.closed ≡ false)
    × (concat b.out.history ++ b.buffer ≡ seen)
    × All (IsSized max) b.out.history

-- The operator after a `flush` on its open channel.
abbrev flushed : {T : Type 0} → Batch T → Batch T
flushed b = record b {
  out = record { history = b.out.history ++ (b.buffer ∷ []); closed = false };
  buffer = [];
}

flush-open : {T : Type 0} (b : Batch T) → b.out.closed ≡ false → flush b ≡ ok (flushed b)
unfolding flush
flush-open b h = rw h

close_out-open :
    {T : Type 0} (b : Batch T)
    → b.out.closed ≡ false
    → close_out b ≡ ok (record b { out = record { history = b.out.history; closed = true } })
unfolding close_out
close_out-open b h = rw h

module _ {T : Type 0} {max : ℕ} where
  flushed-Open :
      (seen : List T) (b : Batch T)
      → 1 ≤ max
      → b.max_batch_size ≡ max
      → IsSized max b.buffer
      → All (IsSized max) b.out.history
      → concat b.out.history ++ b.buffer ≡ seen
      → Open max seen (flushed b)
  flushed-Open seen b pos limit fits sized kept = record {
    positive = pos;
    limit = limit;
    room = omega arith;
    unclosed = refl;
    sized = All-append (IsSized max) b.out.history (b.buffer ∷ []) sized (fits, tt);
    kept = append-nil _ ∙ concat-snoc b.out.history b.buffer ∙ kept;
  }

  on_element-Open :
      (t : T) (seen : List T) (b : Batch T)
      → Open max seen b
      → (b' : Batch T) × (on_element t b ≡ ok b') × Open max (seen ++ (t ∷ [])) b'
  unfolding on_element
  on_element-Open t seen b inv = elim (Bool-cases (leb b.max_batch_size (length added.buffer))) [
    | inl full ↦ (
      flushed added,
      rw full (flush-open added unclosed),
      flushed-Open _ added positive limit (omega (arith, grown), ground (arith, grown, limit)) sized
          joined,
    )
    | inr short ↦ (
      added,
      rw short,
      record {
        positive = positive;
        limit = limit;
        room = ground (arith, limit);
        unclosed = unclosed;
        sized = sized;
        kept = joined;
      },
    )
  ]
    where
      open inv use {positive, limit, room, unclosed, sized, kept}

      added : Batch T
      added = record b { buffer = b.buffer ++ (t ∷ []) }

      grown : length added.buffer ≡ length b.buffer + 1
      grown = length-append b.buffer (t ∷ [])

      joined : concat b.out.history ++ added.buffer ≡ seen ++ (t ∷ [])
      joined =
          sym (append_assoc (concat b.out.history) b.buffer (t ∷ [])) ∙ ap (λ l. l ++ (t ∷ [])) kept

  flush_nonempty-Open :
      (seen : List T) (b : Batch T)
      → Open max seen b
      → (b' : Batch T) × (flush_nonempty b ≡ ok b')
        × Open max seen b'
        × (concat b'.out.history ≡ seen)
  unfolding flush_nonempty
  flush_nonempty-Open seen b inv = elim (Bool-cases (ltb 0 (length b.buffer))) [
    | inl some_left ↦ (
      flushed b,
      rw some_left (flush-open b unclosed),
      flushed-Open seen b positive limit (omega (arith, ltb→lt _ _ some_left), omega arith) sized
          kept,
      concat-snoc b.out.history b.buffer ∙ kept,
    )
    | inr none_left ↦ (
      b,
      rw none_left,
      inv,
      sym (append-nil _) ∙ (rw (length-eq-zero b.buffer (ground (arith, none_left))) at kept),
    )
  ]
    where
      open inv use {positive, limit, room, unclosed, sized, kept}

  on_close-Ends : (seen : List T) (b : Batch T) → Open max seen b → Ends max true seen (on_close b)
  unfolding on_close
  on_close-Ends seen b inv =
      let (b', e, inv', all_sent) = flush_nonempty-Open seen b inv in
      rw e (rw (close_out-open b' inv'.unclosed) (refl, refl, all_sent, inv'.sized))

module _ {Any T : Type 0} (assert : Any → Option T) (max : ℕ) where
  batch_loop-Ends :
      (evs : List (Event Any)) (seen : List T) (b : Batch T)
      → Open max seen b
      → Ends max
          (all_typed assert (elements evs))
          (seen ++ typed_prefix assert (elements evs))
          (batch_loop assert evs b)
  unfolding batch_loop
  batch_loop-Ends [] seen b inv = rw append-nil (on_close-Ends seen b inv)
  batch_loop-Ends (tick ∷ evs) seen b inv =
      let (b', e, inv', _) = flush_nonempty-Open seen b inv in
      rw e (batch_loop-Ends evs seen b' inv')
  batch_loop-Ends (element x ∷ evs) seen b inv = elim (Option-cases (assert x)) [
    | inl bad ↦
        rw (bad, typed_prefix, all_typed, append-nil)
          (refl, refl, inv.unclosed, inv.kept, inv.sized)
    | inr (t, good) ↦
        let (b', e, inv') = on_element-Open t seen b inv in
        rw (good, typed_prefix, all_typed)
          (rw e (rw append_assoc at (batch_loop-Ends evs (seen ++ (t ∷ [])) b' inv')))
  ]

  -- A Batch that `NewBatch` accepted, with a positive interval, over any sequence of elements and
  -- ticks: if all elements are of its type, it closes its output, and its batches joined are the
  -- elements in order, each batch being neither empty nor larger than the maximum. If not, it panics
  -- on the first other element with its output open, and the batches sent and the buffer hold the
  -- elements before that one.
  pub batch_stream_lem :
      (n interval : ℤ) (evs : List (Event Any)) {b : Batch T}
      → new_batch n interval ≡ some b
      → b.max_batch_size ≡ max
      → nonpositive interval ≡ false
      → Ends max
          (all_typed assert (elements evs))
          (typed_prefix assert (elements evs))
          (batch_stream assert evs b)
  unfolding new_batch batch_stream
  batch_stream_lem n interval evs {b} made limit timely =
      rw kept_interval (batch_loop-Ends evs [] b fresh)
    where
      fresh : Open max [] b
      fresh = ground (arith, limit)

      kept_interval : nonpositive b.time_interval ≡ false
      kept_interval = ground (arith, timely)

-- With an interval that is not positive a Batch panics before it receives or sends anything.
pub batch_stream-nonpositive :
    {Any T : Type 0} (assert : Any → Option T) (n interval : ℤ) (evs : List (Event Any))
    {b : Batch T}
    → new_batch n interval ≡ some b
    → nonpositive interval ≡ true
    → (batch_stream assert evs b ≡ panic nonpositive_ticker b) × (b.out ≡ make_chan)
unfolding new_batch batch_stream
batch_stream-nonpositive assert n interval evs made bad = ground arith
