-- ===== src/ObjectStore.antt =====
-- What the sinks for object stores share (aws/s3.go, azure/blob_storage.go, gcp/storage.go): a pool of
-- writers. The output of the pool is what the writers do, and its closing is that of `done`.
pub mod Laws
use go_streams.Prelude.{
  ℕ, Bool, Option, none, some, List, [], ◌∷◌, ℤ, nonpositive, magnitude, if◌then◌else◌,
}
use go_streams.Pool.{Pool, Reach}

-- The dynamic types that a sink tells apart: its objects, pointers to them, and all else.
pub data Upload (Obj : Type 0) : Type 0 where
  object object_pointer : Obj → Upload Obj
  other : Upload Obj

-- `if config.Parallelism < 1 { config.Parallelism = 1 }`
unfoldable pub writer_count : ℤ → ℕ
writer_count parallelism = if nonpositive parallelism then 1 else magnitude parallelism

-- A sink: its client, the config it was given, the buffer of its input channel, and whether `done` is
-- closed.
pub record StoreSink (Client Config : Type 0) : Type 0 where
  pub client : Client
  pub config : Config
  pub capacity : ℕ
  pub done : Bool

module _ {Obj E : Type 0} (write_object : Obj → List E) where
  -- The body of a writer: the type switch, and what it does for an object.
  unfoldable pub upload_body : Upload Obj → Option (List E)
  upload_body (object o) = some (write_object o)
  upload_body (object_pointer o) = some (write_object o)
  upload_body other = some []

  -- What the writers can reach from the elements `given`, in `k` steps.
  abbrev pub Uploads : ℤ → List (Upload Obj) → ℕ → Pool (Upload Obj) E → Type 0
  Uploads parallelism given k s = Reach (writer_count parallelism) upload_body given k s
