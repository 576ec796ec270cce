-- ===== src/Gcp/Sink.antt =====
-- The StorageSink of gcp/storage.go.
pub mod Laws
use go_streams.Prelude.{ℕ, Bool, false, List, [], ◌∷◌, ◌++◌, ℤ, pos, if◌then◌else◌}
use go_streams.Pool.{Pool}
use go_streams.ObjectStore.{Upload, Uploads, StoreSink, writer_count}
use go_streams.Gcp.Source.{StorageObject}

-- `StorageSinkConfig`
pub record StorageSinkConfig : Type 0 where
  pub bucket : List ℕ
  pub parallelism : ℤ

-- `NewStorageSink`; it changes the caller's config, of which it keeps the pointer.
unfoldable pub new_storage_sink :
    {Client : Type 0} → Client → StorageSinkConfig → StoreSink Client StorageSinkConfig
unfolding writer_count
new_storage_sink client config = record {
  client = client;
  config = record config { parallelism = pos (writer_count config.parallelism) };
  capacity = writer_count config.parallelism;
  done = false;
}

-- What a writer does with an object: it copies the data to the store, closes the store's writer, and
-- closes the data.
pub data Effect (Reader : Type 0) : Type 0 where
  copied writer_closed data_closed : StorageObject Reader → Effect Reader

module _ {Reader : Type 0} (copies : StorageObject Reader → Bool) where
  -- `writeObject`, on whether `io.Copy` succeeds
  unfoldable pub write_object : StorageObject Reader → List (Effect Reader)
  write_object o =
      copied o ∷ (if copies o then writer_closed o ∷ data_closed o ∷ [] else data_closed o ∷ [])

  -- What `writeObjects` can reach from the elements `given`, in `k` steps.
  abbrev pub WriteObjects :
      StorageSinkConfig
      → List (Upload (StorageObject Reader))
      → ℕ
      → Pool (Upload (StorageObject Reader)) (Effect Reader)
      → Type 0
  WriteObjects config given k s = Uploads write_object config.parallelism given k s
