-- ===== src/Gcp/Source.antt =====
-- The StorageSource of gcp/storage.go.
use go_streams.Prelude.{ℕ, Bool, true, false, Option, none, some, List, [], ◌∷◌}
use go_streams.Connector.{Run, still_running, leave, after_sending}
use go_streams.Channel.{Chan, make_chan}

-- `StorageSourceConfig`
pub record StorageSourceConfig : Type 0 where
  pub bucket : List ℕ
  pub prefix : List ℕ
  pub delimiter : List ℕ

-- `StorageObject`, over readers `Reader`.
pub record StorageObject (Reader : Type 0) : Type 0 where
  pub key : List ℕ
  pub data_reader : Reader

-- `StorageSource`
pub record StorageSource (Client Reader : Type 0) : Type 0 where
  pub client : Client
  pub config : StorageSourceConfig
  pub out : Chan (StorageObject Reader)

-- `NewStorageSource`
unfoldable pub new_storage_source :
    {Client Reader : Type 0} → Client → StorageSourceConfig → StorageSource Client Reader
new_storage_source client config = record { client = client; config = config; out = make_chan }

-- A turn of the loop of `readObjects`: what the iterator gives, the reader of the object if it can be
-- opened, and whether the `select` takes `ctx.Done()`.
pub data Turn (Reader : Type 0) : Type 0 where
  iterator_done iterator_failed : Turn Reader
  next_object : (name : List ℕ) (reader : Option Reader) (cancelled : Bool) → Turn Reader

-- The loop of `readObjects`.
unfoldable pub object_loop : {Reader : Type 0} → List (Turn Reader) → Run (StorageObject Reader)
object_loop [] = still_running
object_loop (iterator_done ∷ turns) = leave
object_loop (iterator_failed ∷ turns) = leave
object_loop (next_object name none cancelled ∷ turns) = object_loop turns
object_loop (next_object name (some reader) true ∷ turns) = leave
object_loop (next_object name (some reader) false ∷ turns) =
    after_sending (record { key = name; data_reader = reader } ∷ []) (object_loop turns)

-- `readObjects`, on whether the bucket's attributes can be read; the deferred `close(s.out)` comes
-- when it returns.
unfoldable pub read_objects :
    {Reader : Type 0} → Bool → List (Turn Reader) → Run (StorageObject Reader)
unfolding object_loop
read_objects false turns = leave
read_objects true turns = object_loop turns
