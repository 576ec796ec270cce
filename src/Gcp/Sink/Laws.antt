-- ===== src/Gcp/Sink/Laws.antt =====
-- What becomes of the objects that the StorageSink is given (gcp/storage.go).
use go_streams.Prelude.{
  ℕ, Bool, true, false, pos, ap, List, [], ◌∷◌, ◌≡◌, refl, arith, map, concat, weigh, ◌∙◌,
}
use go_streams.Pool.{Pool}
use go_streams.ObjectStore.{Upload}
use go_streams.ObjectStore.Laws.{objects, uploads_complete, writer_count-writer_count}
use go_streams.Gcp.Source.{StorageObject}
use go_streams.Gcp.Sink.{
  StorageSinkConfig, Effect, data_closed, write_object, WriteObjects, new_storage_sink,
}

-- The weight of the data closed.
abbrev pub data_weight : {Reader : Type 0} → (StorageObject Reader → ℕ) → Effect Reader → ℕ
data_weight w (data_closed o) = w o
data_weight w _ = 0

module _ {Reader : Type 0} (copies : StorageObject Reader → Bool) (config : StorageSinkConfig) where
  weigh-data_weight :
      (w : StorageObject Reader → ℕ) (os : List (StorageObject Reader))
      → weigh (data_weight w) (concat (map (write_object copies) os)) ≡ weigh w os
  unfolding write_object
  weigh-data_weight w [] = refl
  weigh-data_weight w (o ∷ os) = ground (arith, weigh-data_weight w os)

  -- When a StorageSink closes `done`, for any configured parallelism and after any interleaving of
  -- its writers, it has read all its elements, and has closed the data of each object among
  -- them as often as it was given, whether or not the copying succeeded, and no other.
  pub storage_sink_closes :
      (given : List (Upload (StorageObject Reader))) {k : ℕ}
      {s : Pool (Upload (StorageObject Reader)) (Effect Reader)}
      → WriteObjects copies config given k s
      → s.out.closed ≡ true
      → (s.input ≡ [])
        × ((w : StorageObject Reader → ℕ)
            → weigh (data_weight w) s.out.history ≡ weigh w (objects given))
  storage_sink_closes given r closed =
      let (read, bag) = uploads_complete (write_object copies) config.parallelism given r closed in
      (read, λ w. bag (data_weight w) ∙ weigh-data_weight w (objects given))

-- `NewStorageSink` gives the same sink again on the config that it has changed.
new_storage_sink-again :
    {Client : Type 0} (client : Client) (config : StorageSinkConfig)
    → new_storage_sink client (new_storage_sink client config).config
      ≡ new_storage_sink client config
unfolding new_storage_sink
new_storage_sink-again client config =
    ap
      (λ n. record {
        client = client;
        config = record config { parallelism = pos n };
        capacity = n;
        done = false;
      })
      (writer_count-writer_count config.parallelism)
