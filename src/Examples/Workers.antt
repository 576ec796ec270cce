-- ===== src/Examples/Workers.antt =====
-- Runs of the worker pools (flow/map.go, flow/filter.go, flow/flat_map.go).
use go_streams.Prelude.{ℕ, ◌*◌, ◌≤◌, true, some, [], ◌∷◌, ◌≡◌, ◌⊎◌, refl, arith, pos, SameBag, map}
use go_streams.Element.{typed_prefix}
use go_streams.Pool.{
  receiving, sending, exited, finished, Pool, Step, start, all_started, receive, deliver, again,
  exit, finish, Reach, here, next,
}
use go_streams.Pool.Inv.{all_accepted}
use go_streams.Pool.Ends.{longest, run_ends}
use go_streams.Map.{Map, new_map, map_body}
use go_streams.Map.Laws.{map_complete}
use go_streams.Examples.Data.{Dynamic, number, as_number}

abbrev double : ℕ → ℕ
double n = 2 * n

abbrev doubler : ℕ → Map ℕ ℕ
doubler n = record { map_function = double; parallelism = n }

doubler-made : new_map double (pos 2) ≡ some (doubler 2)
unfolding new_map
doubler-made = refl

-- Two workers, of which the second one sends first.
abbrev two_done : Pool Dynamic ℕ
two_done = record {
  input = [];
  workers = exited ∷ exited ∷ [];
  wg = 0;
  out = record { history = 8 ∷ 6 ∷ []; closed = true };
  main = finished;
}

two_workers : Reach 2 (map_body as_number (doubler 2)) (number 3 ∷ number 4 ∷ []) 12 two_done
unfolding map_body
two_workers =
    next
      (next
        (next
          (next
            (next
              (next
                (next
                  (next
                    (next
                      (next (next (next here (start refl (omega arith))) (start refl (omega arith)))
                        (all_started refl (omega arith)))
                      (receive [] (receiving ∷ []) (number 3) (number 4 ∷ []) (6 ∷ []) refl refl
                        refl))
                    (receive (sending (6 ∷ []) ∷ []) [] (number 4) [] (8 ∷ []) refl refl refl))
                  (deliver (sending (6 ∷ []) ∷ []) [] 8 [] refl refl))
                (deliver [] (sending [] ∷ []) 6 [] refl refl))
              (again [] (sending [] ∷ []) refl))
            (again (receiving ∷ []) [] refl))
          (exit [] (receiving ∷ []) refl refl))
        (exit (exited ∷ []) [] refl refl))
      (finish refl refl refl)

map_complete_example :
    (two_done.input ≡ [])
    × SameBag two_done.out.history (map double (typed_prefix as_number (number 3 ∷ number 4 ∷ [])))
map_complete_example =
    map_complete as_number double (pos 2) doubler-made (number 3 ∷ number 4 ∷ []) refl two_workers
      refl

both_accepted : all_accepted (map_body as_number (doubler 2)) (number 3 ∷ number 4 ∷ []) ≡ true
unfolding map_body
both_accepted = refl

run_ends_example :
    (12 ≤ longest 2 (map_body as_number (doubler 2)) (number 3 ∷ number 4 ∷ []))
    × ((two_done.out.closed ≡ true)
        ⊎ ((t : Pool Dynamic ℕ) × Step 2 (map_body as_number (doubler 2)) two_done t))
run_ends_example = run_ends 2 (map_body as_number (doubler 2)) both_accepted two_workers
