-- ===== src/Compose/BatchFlatten.antt =====
-- A Batch whose output goes to a Flatten (flow/batch.go, flow/flat_map.go, flow/util.go).
use go_streams.Prelude.{
  ℕ, true, Option, some, List, [], ◌∷◌, ◌++◌, ◌≡◌, refl, sym, ap, ◌∙◌, map, concat, ℤ, pos, arith,
  nonpositive, Bool-cases, inl, inr,
}
use go_streams.Channel.{Chan, Outcome, ok, panic, make_chan}
use go_streams.Channel.Forward.{forward_open}
use go_streams.Element.{typed_prefix, all_typed}
use go_streams.Batch.{Batch, new_batch, Event, batch_stream, transmit}
use go_streams.Batch.Laws.{elements, batch_stream_lem, batch_stream-nonpositive}
use go_streams.Pool.{Pool}
use go_streams.FlatMap.{FlatMap, flatten, Stream}
use go_streams.FlatMap.Laws.{flat_map_ordered}

module _ {Boxed T : Type 0} (box : List T → Boxed) (assert : Boxed → Option (List T))
    (assert-box : (batch : List T) → assert (box batch) ≡ some batch) where
  typed_prefix-box : (batches : List (List T)) → typed_prefix assert (map box batches) ≡ batches
  typed_prefix-box [] = refl
  typed_prefix-box (batch ∷ batches) = ground (arith, assert-box batch, typed_prefix-box batches)

  all_typed-box : (batches : List (List T)) → all_typed assert (map box batches) ≡ true
  all_typed-box [] = refl
  all_typed-box (batch ∷ batches) = ground (arith, assert-box batch, all_typed-box batches)

  concat-map_self : (batches : List (List T)) → concat (map (λ b. b) batches) ≡ concat batches
  concat-map_self [] = refl
  concat-map_self (batch ∷ batches) = ap (λ l. batch ++ l) (concat-map_self batches)

  flatten-concat :
      {m : FlatMap (List T) T} {k : ℕ} {s : Pool Boxed T} (batches : List (List T))
      → flatten (pos 1) ≡ some m
      → Stream assert m (map box batches) k s
      → s.out.closed ≡ true
      → s.out.history ≡ concat batches
  unfolding flatten
  flatten-concat batches made run closed =
      flat_map_ordered assert (λ b. b) made (map box batches) (all_typed-box batches) run closed
      ∙ rw (typed_prefix-box batches) (concat-map_self batches)

  module _ {Any : Type 0} (assert_element : Any → Option T) where
    batch_stream-concat :
        (n interval : ℤ) (evs : List (Event Any)) {b b' : Batch T}
        → new_batch n interval ≡ some b
        → batch_stream assert_element evs b ≡ ok b'
        → concat b'.out.history ≡ typed_prefix assert_element (elements evs)
    batch_stream-concat n interval evs {b} {b'} made ran =
        elim (Bool-cases (nonpositive interval)) [
          | inl bad ↦
              absurd (
                ground
                  (arith, ran, batch_stream-nonpositive assert_element n interval evs made bad))
          | inr timely ↦
              let (typed, closed, joined, sized) = rw ran at (
                batch_stream_lem assert_element b.max_batch_size n interval evs made refl timely) in
              joined
        ]

    -- What a Batch has cut into batches a Flatten with one worker joins again: when the Batch has come to
    -- its end, its batches have been forwarded and the Flatten has closed its output, that output
    -- is the elements in their order, wherever the ticks came.
    pub batch-flatten :
        (n interval : ℤ) (evs : List (Event Any)) {b b' : Batch T} {c : Chan (List T)}
        {m : FlatMap (List T) T} {k : ℕ} {s : Pool Boxed T}
        → new_batch n interval ≡ some b
        → batch_stream assert_element evs b ≡ ok b'
        → transmit b'.out.history make_chan ≡ ok c
        → flatten (pos 1) ≡ some m
        → Stream assert m (map box c.history) k s
        → s.out.closed ≡ true
        → s.out.history ≡ typed_prefix assert_element (elements evs)
    unfolding transmit
    batch-flatten n interval evs {b} {b'} {c} made ran passed made' run closed =
        flatten-concat c.history made' run closed
        ∙ ap concat forwarded
        ∙ batch_stream-concat n interval evs made ran
      where
        history_of : Outcome (Chan (List T)) → List (List T)
        history_of (ok c') = c'.history
        history_of (panic e c') = c'.history

        forwarded : c.history ≡ b'.out.history
        forwarded = ap history_of (sym passed ∙ forward_open b'.out.history make_chan refl)
