-- ===== src/Azure/Sink.antt =====
-- The BlobStorageSink of azure/blob_storage.go.
use go_streams.Prelude.{ℕ, false, List, [], ◌∷◌, ℤ, pos}
use go_streams.Pool.{Pool}
use go_streams.ObjectStore.{Upload, Uploads, StoreSink, writer_count}

-- `BlobStorageObject`, over readers `Reader`.
pub record BlobStorageObject (Reader : Type 0) : Type 0 where
  pub key : List ℕ
  pub data_reader : Reader

-- `BlobStorageSinkConfig`
pub record BlobStorageSinkConfig (UploadOptions : Type 0) : Type 0 where
  pub container : List ℕ
  pub parallelism : ℤ
  pub upload_options : UploadOptions

-- `NewBlobStorageSink`; it changes the caller's config, of which it keeps the pointer.
unfoldable pub new_blob_storage_sink :
    {Client UploadOptions : Type 0}
    → Client
    → BlobStorageSinkConfig UploadOptions
    → StoreSink Client (BlobStorageSinkConfig UploadOptions)
unfolding writer_count
new_blob_storage_sink client config = record {
  client = client;
  config = record config { parallelism = pos (writer_count config.parallelism) };
  capacity = writer_count config.parallelism;
  done = false;
}

-- What a writer does with an object: it uploads its data and closes it.
pub data Effect (Reader UploadOptions : Type 0) : Type 0 where
  uploaded :
      (container : List ℕ) → BlobStorageObject Reader → UploadOptions → Effect Reader UploadOptions
  data_closed : BlobStorageObject Reader → Effect Reader UploadOptions

module _ {Reader UploadOptions : Type 0} where
  -- `uploadBlob`
  unfoldable pub upload_blob :
      BlobStorageSinkConfig UploadOptions
      → BlobStorageObject Reader
      → List (Effect Reader UploadOptions)
  upload_blob config o = uploaded config.container o config.upload_options ∷ data_closed o ∷ []

  -- What `uploadBlobs` can reach from the elements `given`, in `k` steps.
  abbrev pub UploadBlobs :
      BlobStorageSinkConfig UploadOptions
      → List (Upload (BlobStorageObject Reader))
      → ℕ
      → Pool (Upload (BlobStorageObject Reader)) (Effect Reader UploadOptions)
      → Type 0
  UploadBlobs config given k s = Uploads (upload_blob config) config.parallelism given k s
