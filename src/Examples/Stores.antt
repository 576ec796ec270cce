-- ===== src/Examples/Stores.antt =====
-- The theorems on the object stores and on the database at concrete inputs.
use go_streams.Prelude.{
  ℕ, ◌≤◌, ◌<◌, Bool, true, false, Option, none, some, List, [], ◌∷◌, ◌≡◌, ◌↔◌, refl, arith, All,
  weigh, concat, map, replicate, ltb, leb, ◌&&◌, if◌then◌else◌, pos,
}
use mathlib.Core.List.{Mem, mem-cons_self, not-mem-nil}
use go_streams.Pool.{
  Pool, here, next, start, all_started, receive, deliver, again, exit, finish, exited, finished,
}
use go_streams.ObjectStore
use go_streams.ObjectStore.Laws.{objects}
use go_streams.Gcp.Source.{StorageObject}
use go_streams.Gcp.Sink
use go_streams.Gcp.Sink.Laws.{data_weight, storage_sink_closes}
use go_streams.Azure.Source
use go_streams.Azure.Source.Relist.{names, list_blobs_hierarchy-repeats}
use go_streams.Azure.Source.Tree.{
  Directory, directory, entry, no_more, all_names, size, IsHeld, AllSent, list_blobs-all_names,
}
use go_streams.Aerospike.Polling
use go_streams.Aerospike.Polling.Laws.{turn, catches, poll_changes_lem}
use go_streams.Aerospike.Sink as AerospikeSink
use go_streams.Aerospike.Sink.Laws.{IsAllowed, written, records, process_stream_lem}

abbrev no_copy : StorageObject ℕ → Bool
no_copy o = false

abbrev one_object : StorageObject ℕ
one_object = record { key = 1 ∷ []; data_reader = 4 }

abbrev one_writer : Sink.StorageSinkConfig
one_writer = record { bucket = 0 ∷ []; parallelism = pos 1 }

abbrev sink_done : Pool (ObjectStore.Upload (StorageObject ℕ)) (Sink.Effect ℕ)
sink_done = record {
  input = [];
  workers = exited ∷ [];
  wg = 0;
  out = record {
    history = Sink.copied one_object ∷ Sink.data_closed one_object ∷ [];
    closed = true;
  };
  main = finished;
}

sink_run : Sink.WriteObjects no_copy one_writer (ObjectStore.object one_object ∷ []) 8 sink_done
unfolding Sink.write_object ObjectStore.upload_body ObjectStore.writer_count
sink_run =
    next
      (next
        (next
          (next
            (next
              (next (next (next here (start refl (omega arith))) (all_started refl (omega arith))) (
                receive [] [] (ObjectStore.object one_object) []
                  (Sink.copied one_object ∷ Sink.data_closed one_object ∷ []) refl refl refl))
              (deliver [] [] (Sink.copied one_object) (Sink.data_closed one_object ∷ []) refl refl))
            (deliver [] [] (Sink.data_closed one_object) [] refl refl))
          (again [] [] refl))
        (exit [] [] refl refl))
      (finish refl refl refl)

storage_sink_closes_example :
    (sink_done.input ≡ [])
    × ((w : StorageObject ℕ → ℕ)
        → weigh (data_weight w) sink_done.out.history
          ≡ weigh w (objects (ObjectStore.object one_object ∷ [])))
storage_sink_closes_example =
    storage_sink_closes no_copy one_writer (ObjectStore.object one_object ∷ []) sink_run refl

-- A container with one page, which repeats the marker that it was asked for.
abbrev blob_at : ℕ → Source.Blob
blob_at n = record { name = n ∷ []; readable = true; cancelled = false }

abbrev echoing : List ℕ → Option (List ℕ) → List Source.Page
echoing prefix marker = Source.page marker [] (blob_at 1 ∷ []) ∷ []

list_blobs_hierarchy-repeats_example :
    Source.list_blobs_hierarchy true echoing 4 [] (some (7 ∷ []))
    ≡ (concat (replicate 4 (names (blob_at 1 ∷ []))), false)
list_blobs_hierarchy-repeats_example =
    list_blobs_hierarchy-repeats true echoing [] 7 [] (blob_at 1 ∷ []) refl ((refl, refl), tt) 4

-- A directory with one below it.
abbrev below : Directory
below = directory no_more (blob_at 3 ∷ [])

abbrev nested : Directory
nested = directory (entry (5 ∷ []) below no_more) (blob_at 1 ∷ blob_at 2 ∷ [])

abbrev nested_pages : List ℕ → Option (List ℕ) → List Source.Page
nested_pages [] marker = Source.page none ((5 ∷ []) ∷ []) (blob_at 1 ∷ blob_at 2 ∷ []) ∷ []
nested_pages (b ∷ bs) marker = Source.page none [] (blob_at 3 ∷ []) ∷ []

nested-size : size nested ≤ 2
unfolding size
nested-size = omega arith

nested-IsHeld : IsHeld nested_pages [] nested
unfolding IsHeld
nested-IsHeld = (refl, ((refl, tt), tt))

nested-AllSent : AllSent nested
unfolding AllSent
nested-AllSent = (((refl, refl), ((refl, refl), tt)), ((((refl, refl), tt), tt), tt))

abbrev nested_config : Source.BlobStorageSourceConfig
nested_config = record { container = 1 ∷ []; prefix = []; flat = false }

list_blobs-all_names_example :
    Source.list_blobs nested_config nested_pages 2 ≡ (all_names nested, true)
list_blobs-all_names_example =
    list_blobs-all_names nested_pages nested_config nested 2 refl nested-IsHeld nested-AllSent
      nested-size

-- A client with one record, last written at the time 25.
abbrev one_update : ℕ → Option (Polling.Expression ℕ) → Option (List (Option ℕ))
one_update now (some (Polling.updated_after bound)) =
    some (if leb 25 now && ltb bound 25 then some 3 ∷ [] else [])
one_update now filter = some []

abbrev every_ten : Polling.PollingConfig ℕ
every_ten = record { polling_interval = 10; query_policy = none }

one_update-answers :
    (now bound : ℕ)
    → Mem (some 3) (Polling.query one_update now (some (Polling.updated_after bound)))
      ↔ ((25 ≤ now) × (bound < 25))
unfolding Polling.query
one_update-answers now bound = by_test (leb 25 now && ltb bound 25) refl
  where
    by_test :
        (b : Bool)
        → (leb 25 now && ltb bound 25) ≡ b
        → Mem {A = Option ℕ} (some 3) (if b then some 3 ∷ [] else []) ↔ ((25 ≤ now) × (bound < 25))
    by_test true e = (λ m. ground (arith, e), λ h. mem-cons_self)
    by_test false e = (λ m. absurd (not-mem-nil m), λ h. ground (arith, e, h))

-- The query for the first tick is on time, and that for the second one late.
abbrev two_ticks : List (ℕ × ℕ)
two_ticks = (20, 21) ∷ (30, 47) ∷ []

poll_changes_example :
    Mem (some 3) (Polling.poll_changes one_update every_ten 10 (map turn two_ticks)).0
    ↔ (catches 10 25 two_ticks ≡ true)
poll_changes_example =
    poll_changes_lem one_update every_ten 3 25 refl (omega arith) one_update-answers 10 two_ticks
      (omega arith)

-- Batches of at most two records, with a tick in between.
abbrev in_twos : AerospikeSink.SinkConfig
in_twos = record { batch_size = pos 2; buffer_flush_interval = 10 }

abbrev no_record : ℕ → Option ℕ
no_record b = none

abbrev sink_events : List (AerospikeSink.Event ℕ ℕ)
sink_events =
    AerospikeSink.record_value 1
    ∷ AerospikeSink.tick
    ∷ AerospikeSink.bin_map 4
    ∷ AerospikeSink.record_pointer 2
    ∷ AerospikeSink.unsupported
    ∷ AerospikeSink.record_value 3
    ∷ AerospikeSink.record_value 4
    ∷ []

abbrev sink_end : AerospikeSink.Sink ℕ
sink_end = record {
  config = in_twos;
  buf = [];
  calls =
      AerospikeSink.batch_operate (1 ∷ [])
      ∷ AerospikeSink.batch_operate (2 ∷ 3 ∷ [])
      ∷ AerospikeSink.batch_operate (4 ∷ [])
      ∷ [];
  done = true;
}

sink_events-run :
    AerospikeSink.process_stream no_record sink_events (AerospikeSink.new_sink in_twos) ≡ sink_end
unfolding AerospikeSink.process_stream AerospikeSink.new_sink AerospikeSink.flush_buffer
    AerospikeSink.handle AerospikeSink.write_record
sink_events-run = refl

process_stream_example :
    All (IsAllowed in_twos) sink_end.calls
    × (concat (map written sink_end.calls) ≡ records no_record sink_events)
    × (sink_end.buf ≡ [])
    × (sink_end.done ≡ true)
process_stream_example = process_stream_lem no_record in_twos sink_events sink_events-run
