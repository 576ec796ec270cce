-- ===== src/Azure/Source.antt =====
-- The BlobStorageSource of azure/blob_storage.go.
pub mod Tree
pub mod Relist
use go_streams.Prelude.{
  ℕ, zero, suc, Bool, true, false, Option, none, some, List, [], ◌∷◌, ◌++◌, if◌then◌else◌,
}
use go_streams.Channel.{Chan, make_chan}

-- `BlobStorageSourceConfig`
pub record BlobStorageSourceConfig : Type 0 where
  pub container : List ℕ
  pub prefix : List ℕ
  pub flat : Bool

-- `BlobStorageSource`
pub record BlobStorageSource (Client Container : Type 0) : Type 0 where
  pub client : Client
  pub container_client : Container
  pub config : BlobStorageSourceConfig
  pub out : Chan (List ℕ)

-- `NewBlobStorageSource`; `container_of` is what the client library gives for a container's name.
unfoldable pub new_blob_storage_source :
    {Client Container : Type 0}
    → (Client → List ℕ → Container)
    → Client
    → BlobStorageSourceConfig
    → BlobStorageSource Client Container
new_blob_storage_source container_of client config = record {
  client = client;
  container_client = container_of client config.container;
  config = config;
  out = make_chan;
}

-- A blob of a page: its name, whether its download can be started, and whether the `select` takes
-- `ctx.Done()` instead of sending it.
pub record Blob : Type 0 where
  pub name : List ℕ
  pub readable : Bool
  pub cancelled : Bool

-- What `NextPage` returns: an error, or the page's `Marker`, virtual directories and blobs.
pub data Page : Type 0 where
  page_failed : Page
  page : (marker : Option (List ℕ)) (prefixes : List (List ℕ)) (blobs : List Blob) → Page

-- The loop over the blobs of a page: the names sent, and whether it returned.
unfoldable pub blob_loop : List Blob → List (List ℕ) × Bool
blob_loop [] = ([], false)
blob_loop (b ∷ bs) =
    let (sent, returned) = blob_loop bs in
    if b.readable
    then if b.cancelled then ([], true) else (b.name ∷ sent, returned)
    else (sent, returned)

-- How a walk over pages goes on: with the last marker, not at all, or out of fuel.
pub data WalkEnd : Type 0 where
  at_marker : Option (List ℕ) → WalkEnd
  returned exhausted : WalkEnd

-- The loop over the virtual directories: the names sent, and whether there was fuel for them all.
unfoldable pub prefix_loop : (List ℕ → List (List ℕ) × Bool) → List (List ℕ) → List (List ℕ) × Bool
prefix_loop recurse [] = ([], true)
prefix_loop recurse (p ∷ ps) =
    let (sent, finished) = recurse p in
    let (sent', finished') = prefix_loop recurse ps in
    if finished then (sent ++ sent', finished') else (sent, false)

-- The loop over the pages. An error ends it with the marker of the page before.
unfoldable pub page_loop :
    (List ℕ → List (List ℕ) × Bool) → Bool → Option (List ℕ) → List Page → List (List ℕ) × WalkEnd
unfolding prefix_loop blob_loop
page_loop recurse flat marker [] = ([], at_marker marker)
page_loop recurse flat marker (page_failed ∷ pages) = ([], at_marker marker)
page_loop recurse flat marker (page marker' prefixes blobs ∷ pages) =
    let (below, finished) = prefix_loop recurse (if flat then [] else prefixes) in
    let (here, returns) = blob_loop blobs in
    let (later, walk_end) = page_loop recurse flat marker' pages in
    if finished
    then if returns then (below ++ here, returned) else (below ++ (here ++ later), walk_end)
    else (below, exhausted)

-- `marker != nil && *marker != ""`
abbrev pub has_more : Option (List ℕ) → Bool
has_more (some (b ∷ bs)) = true
has_more _ = false

module _ (flat : Bool) (pages : List ℕ → Option (List ℕ) → List Page) where
  -- `listBlobsHierarchy`, on at most `fuel` nested calls: the names sent, and whether it came to its
  -- end. `pages` is what the pager gives for a prefix and a marker until there is no more.
  unfoldable pub list_blobs_hierarchy : (fuel : ℕ) → List ℕ → Option (List ℕ) → List (List ℕ) × Bool
  unfolding page_loop
  list_blobs_hierarchy zero prefix marker = ([], false)
  list_blobs_hierarchy (suc fuel) prefix marker =
      let (sent, walk_end) =
        page_loop (λ p. list_blobs_hierarchy fuel p none) flat marker (pages prefix marker) in
      elim walk_end [
        | returned ↦ (sent, true)
        | exhausted ↦ (sent, false)
        | at_marker marker' ↦
            let (sent', finished) = list_blobs_hierarchy fuel prefix marker' in
            if has_more marker' then (sent ++ sent', finished) else (sent, true)
      ]

-- `listBlobs`: the names sent, and whether `out` has been closed.
unfoldable pub list_blobs :
    BlobStorageSourceConfig
    → (List ℕ → Option (List ℕ) → List Page)
    → (fuel : ℕ) → List (List ℕ) × Bool
unfolding list_blobs_hierarchy
list_blobs config pages fuel = list_blobs_hierarchy config.flat pages fuel config.prefix none
