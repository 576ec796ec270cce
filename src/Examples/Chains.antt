-- ===== src/Examples/Chains.antt =====
-- Chains of goroutines run at concrete inputs (streams.go).
use go_streams.Prelude.{ℕ, ◌+◌, ◌≤◌, true, [], ◌∷◌, ◌++◌, ◌≡◌, ◌⊎◌, refl, All}
use go_streams.Pipeline.{
  Chain, source, spent, via, ranging, closed, Program, start, Runs, here, ◌⨾◌, Run, work,
  sink_receive, sink_done, inner, receive, again, finish, close_out, close_source, source_gives,
  send, Crash,
}
use go_streams.Pipeline.Remains.{remains}
use go_streams.Pipeline.Operators.{forwarder, via_flow, fold_operator}
use go_streams.Fold
use go_streams.Fold.{Fold}
use go_streams.Pipeline.Typed.{Typed, source_typed, via_typed, typed_pipeline}
use go_streams.Pipeline.Typed.Links.{IsOf, IsBoxed, forwarder_type, fold_type}
use go_streams.Pipeline.Laws.{program_left}
use go_streams.Pipeline.Stages.{fold, results, stages_complete}
use go_streams.Examples.Data.{Dynamic, number, as_number}

-- A Fold that adds up the numbers from a source.
abbrev adding : Fold ℕ ℕ
adding = record { init = 0; fold_function = λ n m. n + m }

abbrev sums : Chain Dynamic
sums =
    via (via_flow (source (number 3 ∷ number 4 ∷ [])) (fold_operator as_number number adding) 0)
      forwarder tt ranging

sums-Typed : Typed sums (IsBoxed number)
sums-Typed =
    via_typed (forwarder_type (IsBoxed number))
      (via_typed (fold_type as_number number adding)
        (via_typed (forwarder_type (IsOf as_number)) (source_typed ((3, refl), ((4, refl), tt))) tt)
        tt)
      tt

abbrev sums_end : Program Dynamic
sums_end = record {
  chain =
      (via (via (via spent (forwarder) tt closed) (fold_operator as_number number adding) 7 closed)
        (forwarder) tt closed);
  sunk = number 3 ∷ number 7 ∷ [];
  done = true;
}

sums_run : Runs 22 (start sums) sums_end
sums_run =
    here
    ⨾ work (inner (inner (receive source_gives refl)))
    ⨾ work (inner (receive send refl))
    ⨾ work (receive send refl)
    ⨾ sink_receive send
    ⨾ work again
    ⨾ work (inner again)
    ⨾ work (inner (inner again))
    ⨾ work (inner (inner (receive source_gives refl)))
    ⨾ work (inner (receive send refl))
    ⨾ work (receive send refl)
    ⨾ sink_receive send
    ⨾ work again
    ⨾ work (inner again)
    ⨾ work (inner (inner again))
    ⨾ work (inner (inner (inner close_source)))
    ⨾ work (inner (inner (finish refl)))
    ⨾ work (inner (inner close_out))
    ⨾ work (inner (finish refl))
    ⨾ work (inner close_out)
    ⨾ work (finish refl)
    ⨾ work close_out
    ⨾ sink_done refl

typed_pipeline_example :
    (¬ Crash sums_end.chain)
    × All (IsBoxed number) sums_end.sunk
    × ((sums_end.done ≡ true) ⊎ ((q : Program Dynamic) × Run sums_end q))
typed_pipeline_example = typed_pipeline sums-Typed sums_run

stages_complete_example :
    (22 ≤ program_left (start sums))
    × (¬ Crash sums_end.chain)
    × (sums_end.sunk ++ remains sums_end.chain
        ≡ results (fold as_number number adding ∷ []) (number 3 ∷ number 4 ∷ []))
    × (((sums_end.done ≡ true)
          × (sums_end.sunk
              ≡ results (fold as_number number adding ∷ []) (number 3 ∷ number 4 ∷ [])))
        ⊎ ((q : Program Dynamic) × Run sums_end q))
unfolding Fold.stream
stages_complete_example =
    stages_complete (fold as_number number adding ∷ []) (number 3 ∷ number 4 ∷ []) (refl, tt)
      sums_run
