-- ===== src/Aws/S3Source.antt =====
-- The S3Source of aws/s3.go. A body is what `GetObject` opens; its first `Read` is an argument.
pub mod Laws
use go_streams.Prelude.{
  ℕ, ◌*◌, zero, suc, ◌-◌, Option, none, some, List, [], ◌∷◌, ◌++◌, length, replicate, take, ℤ,
  nonpositive, magnitude, if◌then◌else◌,
}
use go_streams.Pool.{Pool, Reach}
use go_streams.Connector.{Run, still_running, leave, after_sending}

-- `S3SourceConfig`
pub record S3SourceConfig : Type 0 where
  pub bucket : List ℕ
  pub path : List ℕ
  pub parallelism : ℤ
  pub chunk_size : ℤ

-- `s3DefaultChunkSize`
abbrev pub s3_default_chunk_size : ℕ
s3_default_chunk_size = 5 * 1024 * 1024

-- `S3Object`, with the bytes that its reader gives.
pub record S3Object : Type 0 where
  pub key : List ℕ
  pub data_bytes : List ℕ

-- What `NewS3Source` makes of the config: the number of readers and the chunk size.
unfoldable pub new_s3_source : S3SourceConfig → ℕ × ℕ
new_s3_source config = (
  if nonpositive config.parallelism then 1 else magnitude config.parallelism,
  if nonpositive config.chunk_size then s3_default_chunk_size else magnitude config.chunk_size,
)

-- What `ListObjectsV2` returns: keys, and the token of the next page if there is one.
pub data ListResponse (Token : Type 0) : Type 0 where
  list_failed : ListResponse Token
  page : (contents : List (List ℕ)) (next : Option Token) → ListResponse Token

module _ {Token : Type 0} (list_objects_v2 : Option Token → ListResponse Token) where
  -- `listObjects`, on at most `fuel` pages: the keys sent to `objectCh`, and whether it is closed.
  unfoldable pub list_objects : (fuel : ℕ) → Option Token → Run (List ℕ)
  list_objects zero token = still_running
  list_objects (suc fuel) token = elim (list_objects_v2 token) [
    | list_failed ↦ leave
    | page contents none ↦ after_sending contents leave
    | page contents (some next) ↦ after_sending contents (list_objects fuel (some next))
  ]

module _ {Body : Type 0} (get_object : List ℕ → Option Body)
    (first_read : ℕ → Body → Option (List ℕ)) where
  -- The slice `data` of the chunk size, of which a read has filled the beginning.
  unfoldable pub filled : ℕ → List ℕ → List ℕ
  filled chunk_size bytes = bytes ++ replicate (chunk_size - length bytes) 0

  -- What a reader of `getObjects` sends for a key. When `GetObject` fails it goes on to the body of
  -- a nil output, which panics: `none`. When the read fails it sends nothing.
  unfoldable pub get_body : ℕ → List ℕ → Option (List S3Object)
  unfolding filled
  get_body chunk_size key = elim (get_object key) [
    | none ↦ none
    | some body ↦ elim (first_read chunk_size body) [
      | none ↦ some []
      | some bytes ↦ some (record { key = key; data_bytes = filled chunk_size bytes } ∷ [])
    ]
  ]

  -- What the readers of `getObjects` can reach from the keys, in `k` steps, if they receive `taken` of
  -- them: all, or those that came from their channel before each reader has found the context
  -- cancelled. A reader that has found it cancelled is one that makes no step until the end.
  abbrev pub GetObjects :
      S3SourceConfig → (taken : ℕ) → List (List ℕ) → ℕ → Pool (List ℕ) S3Object → Type 0
  GetObjects config taken keys k s =
      Reach (new_s3_source config).0 (get_body (new_s3_source config).1) (take taken keys) k s
