-- ===== src/Batch/Link.antt =====
-- A Batch whose ticker does not fire, as a link of a chain (flow/batch.go): the operator that sends what it
-- has kept when its input is closed.
use go_streams.Prelude.{
  ℕ, false, Option, none, some, List, [], ◌∷◌, ◌++◌, ◌≡◌, refl, ap, arith, ℤ, nonpositive, map,
  length, leb, ltb, if◌then◌else◌, append-nil, append_assoc, Option-cases, Bool-cases, inl, inr,
}
use go_streams.Channel.{Outcome, ok, panic}
use go_streams.Pipeline.{Operator}
use go_streams.Pipeline.Remains.{outputs}
use go_streams.Batch.{
  Batch, element, flush, flush_nonempty, on_element, close_out, on_close, batch_loop, batch_stream,
}

module _ {Any T : Type 0} (assert : Any → Option T) (box : List T → Any) (max_batch_size : ℕ) where
  -- `batchStream` without ticks: its variable is the buffer.
  abbrev pub batch_operator : Operator Any
  batch_operator = record {
    State = List T;
    react = λ buffer e. elim (assert e) [
      | none ↦ none
      | some t ↦ some (
          if leb max_batch_size (length (buffer ++ (t ∷ [])))
          then ([], box (buffer ++ (t ∷ [])) ∷ [])
          else (buffer ++ (t ∷ []), []))
    ];
    flush = λ buffer. if ltb 0 (length buffer) then box buffer ∷ [] else [];
  }

  -- What was sent, however the goroutine ended.
  abbrev pub batches : Outcome (Batch T) → List (List T)
  batches (ok b) = b.out.history
  batches (panic e b) = b.out.history

  -- A Batch in the middle of its loop.
  abbrev going : ℤ → List (List T) → List T → Batch T
  going interval h buffer = record {
    max_batch_size = max_batch_size;
    time_interval = interval;
    out = record { history = h; closed = false };
    buffer = buffer;
  }

  map-snoc : (h : List (List T)) (b : List T) → map box (h ++ (b ∷ [])) ≡ map box h ++ (box b ∷ [])
  map-snoc [] b = refl
  map-snoc (x ∷ h) b = ap (λ l. box x ∷ l) (map-snoc h b)

  batch_loop-from :
      (interval : ℤ) (es : List Any) (h : List (List T)) (buffer : List T)
      → map box (batches (batch_loop assert (map element es) (going interval h buffer)))
        ≡ map box h ++ outputs batch_operator buffer es
  unfolding batch_loop on_close flush_nonempty flush close_out on_element
  batch_loop-from interval [] h buffer = elim (Bool-cases (ltb 0 (length buffer))) [
    | inl some_left ↦ ground (arith, some_left, map-snoc h buffer)
    | inr none_left ↦ ground (arith, none_left, append-nil (map box h))
  ]
  batch_loop-from interval (e ∷ es) h buffer = elim (Option-cases (assert e)) [
    | inl bad ↦ ground (arith, bad, append-nil (map box h))
    | inr (t, good) ↦
        let full = buffer ++ (t ∷ []) in
        elim (Bool-cases (leb max_batch_size (length full))) [
          | inl cut ↦ ground (
            arith,
            good,
            cut,
            map-snoc h full,
            batch_loop-from interval es (h ++ (full ∷ [])) [],
            append_assoc (map box h) (box full ∷ []) (outputs batch_operator [] es),
          )
          | inr kept ↦ ground (arith, good, kept, batch_loop-from interval es h full)
        ]
  ]

  -- With a positive interval and where no tick comes a Batch sends the same in a chain as its goroutine by itself, whatever its elements
  -- are.
  batch-outputs :
      (interval : ℤ) (es : List Any)
      → nonpositive interval ≡ false
      → map box (batches (batch_stream assert (map element es) (going interval [] [])))
        ≡ outputs batch_operator [] es
  unfolding batch_stream
  batch-outputs interval es timely = rw timely (batch_loop-from interval es [] [])
