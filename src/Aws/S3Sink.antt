-- ===== src/Aws/S3Sink.antt =====
-- The S3Sink of aws/s3.go.
use go_streams.Prelude.{ℕ, false, List, [], ◌∷◌, ℤ, pos}
use go_streams.Pool.{Pool}
use go_streams.ObjectStore.{Upload, Uploads, StoreSink, writer_count}
use go_streams.Aws.S3Source.{S3Object}

-- `S3SinkConfig`
pub record S3SinkConfig : Type 0 where
  pub bucket : List ℕ
  pub parallelism : ℤ

-- `NewS3Sink`; it changes the caller's config, of which it keeps the pointer.
unfoldable pub new_s3_sink :
    {Client : Type 0} → Client → S3SinkConfig → StoreSink Client S3SinkConfig
unfolding writer_count
new_s3_sink client config = record {
  client = client;
  config = record config { parallelism = pos (writer_count config.parallelism) };
  capacity = writer_count config.parallelism;
  done = false;
}

-- A call of `PutObject`; its failure is logged only.
pub record PutObject : Type 0 where
  pub bucket : List ℕ
  pub key : List ℕ
  pub body : List ℕ

-- `writeObject`
unfoldable pub write_object : S3SinkConfig → S3Object → List PutObject
write_object config o = record { bucket = config.bucket; key = o.key; body = o.data_bytes } ∷ []

-- What `writeObjects` can reach from the elements `given`, in `k` steps.
abbrev pub WriteObjects :
    S3SinkConfig → List (Upload S3Object) → ℕ → Pool (Upload S3Object) PutObject → Type 0
WriteObjects config given k s = Uploads (write_object config) config.parallelism given k s
