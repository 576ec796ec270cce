-- ===== src/Examples/Fleet.antt =====
-- A program with a pool of two workers, run at a concrete input.
use go_streams.Prelude.{ℕ, ◌+◌, ◌≤◌, true, Option, some, List, [], ◌∷◌, ◌≡◌, ◌⊎◌, refl, SameBag}
use go_streams.Pool.{receiving, exited}
use go_streams.Map.{Map, map_body}
use go_streams.Pipeline.Agree.{boxed_body}
use go_streams.Pools.{
  Chain, source, spent, pool, source_gives, worker_gives, close_source, inner, receive, again, exit,
  close_out, Crash, Program, start, forwarded, via_pool, Run, work, sink_receive, sink_done, Runs,
  here, ◌⨾◌,
}
use go_streams.Pools.Fresh.{delivered}
use go_streams.Pools.Laws.{program_left, pools_complete}
use go_streams.Examples.Data.{Dynamic, number, as_number}

-- Doubling by two workers, of the numbers from a source.
abbrev two_doublers : Map ℕ ℕ
two_doublers = record { map_function = λ n. n + n; parallelism = 2 }

abbrev doubling : Dynamic → Option (List Dynamic)
doubling = boxed_body number (map_body as_number two_doublers)

abbrev two_numbers : List Dynamic
two_numbers = number 3 ∷ number 4 ∷ []

abbrev doubled_chain : Chain Dynamic
doubled_chain = forwarded (via_pool (source two_numbers) doubling 2)

abbrev doubled_end : Program Dynamic
doubled_end = record {
  chain =
      (pool
        (pool (pool spent (λ e. some (e ∷ [])) (exited ∷ []) true) doubling (exited ∷ exited ∷ [])
          true)
        (λ e. some (e ∷ [])) (exited ∷ []) true);
  sunk = number 6 ∷ number 8 ∷ [];
  done = true;
}

doubled_run : Runs 23 (start doubled_chain) doubled_end
unfolding map_body
doubled_run =
    here
    ⨾ work (inner (inner (receive [] [] (number 3 ∷ []) source_gives refl refl)))
    ⨾ work (
        inner (
          receive [] (receiving ∷ []) (number 6 ∷ []) (worker_gives [] [] (number 3) ([]) refl) refl
            refl))
    ⨾ work (
        receive [] [] (number 6 ∷ []) (worker_gives [] (receiving ∷ []) (number 6) ([]) refl) refl
          refl)
    ⨾ sink_receive (worker_gives [] [] (number 6) ([]) refl)
    ⨾ work (again [] [] refl)
    ⨾ work (inner (again [] (receiving ∷ []) refl))
    ⨾ work (inner (inner (again [] [] refl)))
    ⨾ work (inner (inner (receive [] [] (number 4 ∷ []) source_gives refl refl)))
    ⨾ work (
        inner (
          receive [] (receiving ∷ []) (number 8 ∷ []) (worker_gives [] [] (number 4) ([]) refl) refl
            refl))
    ⨾ work (
        receive [] [] (number 8 ∷ []) (worker_gives [] (receiving ∷ []) (number 8) ([]) refl) refl
          refl)
    ⨾ sink_receive (worker_gives [] [] (number 8) ([]) refl)
    ⨾ work (again [] [] refl)
    ⨾ work (inner (again [] (receiving ∷ []) refl))
    ⨾ work (inner (inner (again [] [] refl)))
    ⨾ work (inner (inner (inner close_source)))
    ⨾ work (inner (inner (exit [] [] refl refl)))
    ⨾ work (inner (inner (close_out (tt, tt))))
    ⨾ work (inner (exit [] (receiving ∷ []) refl refl))
    ⨾ work (inner (exit (exited ∷ []) [] refl refl))
    ⨾ work (inner (close_out (tt, (tt, tt))))
    ⨾ work (exit [] [] refl refl)
    ⨾ work (close_out (tt, tt))
    ⨾ sink_done refl

pools_complete_example :
    (23 ≤ program_left (start doubled_chain))
    × (¬ Crash doubled_end.chain)
    × (((doubled_end.done ≡ true) × SameBag doubled_end.sunk (delivered doubled_chain))
        ⊎ ((q : Program Dynamic) × Run doubled_end q))
unfolding map_body
pools_complete_example =
    pools_complete doubled_chain (((tt, refl, (0, refl)), refl, (1, refl)), refl, (0, refl))
      (((tt, refl), refl), refl) doubled_run
