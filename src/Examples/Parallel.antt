-- ===== src/Examples/Parallel.antt =====
-- A round robin, and the same before Maps and a Merge, at concrete inputs (flow/util.go, flow/map.go).
use go_streams.Prelude.{
  ℕ, ◌+◌, true, false, some, List, [], ◌∷◌, ◌≡◌, refl, arith, map, pos, SameBag, concat, length,
  All, IsSubsequence,
}
use go_streams.Element.{typed_prefix}
use go_streams.Pool
use go_streams.Pool.{Pool}
use go_streams.Merge
use go_streams.Merge.{Merge, init}
use go_streams.RoundRobin
use go_streams.RoundRobin.{RoundRobin}
use go_streams.RoundRobin.Laws.{received, round_robin_complete}
use go_streams.Map.{Map, new_map, map_body, Stream as MapStream}
use go_streams.Compose.Parallel.{MapRuns, map_run, no_run, parallel_map}
use go_streams.Examples.Data.{Dynamic, number, as_number}

-- Two flows, of which the first one gets the only element.
abbrev shared_first : RoundRobin.Forwarder Dynamic
shared_first = record {
  stage = RoundRobin.exited;
  flow = record { history = number 7 ∷ []; closed = true };
}

abbrev shared_one : RoundRobin Dynamic
shared_one = record {
  forwarders =
      shared_first
      ∷ record { stage = RoundRobin.exited; flow = record { history = []; closed = true } }
      ∷ [];
  input = [];
}

abbrev waiting_at : List Dynamic → RoundRobin.Forwarder Dynamic
waiting_at h = record { stage = RoundRobin.ranging; flow = record { history = h; closed = false } }

shared_run : RoundRobin.Reach (RoundRobin.init 2 (number 7 ∷ [])) shared_one
shared_run =
    RoundRobin.next
      (RoundRobin.next
        (RoundRobin.next
          (RoundRobin.next RoundRobin.here (
            RoundRobin.receive [] (waiting_at [] ∷ []) (waiting_at []) (number 7) [] refl refl
              refl))
          (RoundRobin.deliver [] (waiting_at [] ∷ [])
            (record (waiting_at []) { stage = RoundRobin.holding (number 7) }) (number 7) refl refl
            refl))
        (RoundRobin.leave [] (waiting_at [] ∷ []) (waiting_at (number 7 ∷ [])) refl refl refl refl))
      (RoundRobin.leave (shared_first ∷ []) [] (waiting_at []) refl refl refl refl)

round_robin_complete_example :
    (shared_one.input ≡ [])
    × (length shared_one.forwarders ≡ 2)
    × SameBag (concat (received shared_one)) (number 7 ∷ [])
    × All (λ l. IsSubsequence l (number 7 ∷ [])) (received shared_one)
round_robin_complete_example =
    round_robin_complete 2 (number 7 ∷ []) (omega arith) shared_run (refl, (refl, tt))

-- A doubling Map behind each of the two flows.
abbrev doubled : ℕ → ℕ
doubled n = n + n

abbrev doubler : Map ℕ ℕ
doubler = record { map_function = doubled; parallelism = 1 }

doubler-made : new_map doubled (pos 1) ≡ some doubler
unfolding new_map
doubler-made = refl

-- A pool of one worker at its end.
abbrev worked : List ℕ → Pool Dynamic ℕ
worked sent = record {
  input = [];
  workers = Pool.exited ∷ [];
  wg = 0;
  out = record { history = sent; closed = true };
  main = Pool.finished;
}

doubled_run : MapStream as_number doubler (number 7 ∷ []) 7 (worked (14 ∷ []))
unfolding map_body
doubled_run =
    Pool.next
      (Pool.next
        (Pool.next
          (Pool.next
            (Pool.next
              (Pool.next (Pool.next Pool.here (Pool.start refl (omega arith)))
                (Pool.all_started refl (omega arith)))
              (Pool.receive [] [] (number 7) [] (14 ∷ []) refl refl refl))
            (Pool.deliver [] [] 14 [] refl refl))
          (Pool.again [] [] refl))
        (Pool.exit [] [] refl refl))
      (Pool.finish refl refl refl)

idle_run : MapStream as_number doubler [] 4 (worked [])
idle_run =
    Pool.next
      (Pool.next
        (Pool.next (Pool.next Pool.here (Pool.start refl (omega arith)))
          (Pool.all_started refl (omega arith)))
        (Pool.exit [] [] refl refl))
      (Pool.finish refl refl refl)

two_branches : MapRuns as_number doubler (received shared_one) ((14 ∷ []) ∷ [] ∷ [])
two_branches = map_run doubled_run refl (map_run idle_run refl no_run)

abbrev merged_one : Merge ℕ
merged_one = record {
  forwarders = Merge.exited ∷ Merge.exited ∷ [];
  wg = 0;
  merged = record { history = 14 ∷ []; closed = true };
}

merged_one_run : Merge.Reach (init ((14 ∷ []) ∷ [] ∷ [])) merged_one
merged_one_run =
    Merge.next
      (Merge.next
        (Merge.next
          (Merge.next (Merge.next Merge.here (Merge.receive [] (Merge.ranging [] ∷ []) 14 [] refl))
            (Merge.deliver [] (Merge.ranging [] ∷ []) 14 [] refl refl))
          (Merge.done [] (Merge.ranging [] ∷ []) refl))
        (Merge.done (Merge.exited ∷ []) [] refl))
      (Merge.close_merged refl refl)

parallel_map_example :
    SameBag merged_one.merged.history (map doubled (typed_prefix as_number (number 7 ∷ [])))
parallel_map_example =
    parallel_map as_number doubled (pos 1) doubler-made 2 (number 7 ∷ []) (omega arith) refl
      shared_run (refl, (refl, tt)) two_branches merged_one_run refl
