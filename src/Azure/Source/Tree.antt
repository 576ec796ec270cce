-- ===== src/Azure/Source/Tree.antt =====
-- A container whose directories each fit on one page (azure/blob_storage.go, listBlobsHierarchy).
use go_streams.Prelude.{
  ℕ, zero, suc, ◌+◌, ◌≤◌, true, false, Option, none, List, [], ◌∷◌, ◌++◌, ◌≡◌, refl, arith, All,
  append-nil, append_assoc,
}
use go_streams.Azure.Source.{
  BlobStorageSourceConfig, Blob, Page, page, page_loop, prefix_loop, list_blobs_hierarchy,
  list_blobs,
}
use go_streams.Azure.Source.Relist.{IsSent, names, blob_loop-names}

-- The virtual directories, with their full prefixes.
mutual
  pub data Directory : Type 0 where
    directory : Directories → List Blob → Directory

  pub data Directories : Type 0 where
    no_more : Directories
    entry : (prefix : List ℕ) → Directory → Directories → Directories

unfoldable mutual
  -- The names of the blobs, in the order of the listing: those of the directories below first.
  pub all_names : Directory → List (List ℕ)
  all_names (directory ds blobs) = names_below ds ++ names blobs

  names_below : Directories → List (List ℕ)
  names_below no_more = []
  names_below (entry prefix d ds) = all_names d ++ names_below ds

unfoldable mutual
  -- The number of directories.
  pub size : Directory → ℕ
  size (directory ds blobs) = suc (size_below ds)

  size_below : Directories → ℕ
  size_below no_more = 0
  size_below (entry prefix d ds) = size d + size_below ds

unfoldable pub prefixes : Directories → List (List ℕ)
prefixes no_more = []
prefixes (entry prefix d ds) = prefix ∷ prefixes ds

unfoldable mutual
  -- Every download of a blob succeeds, and the context is not cancelled where it is sent.
  pub AllSent : Directory → Type 0
  AllSent (directory ds blobs) = All IsSent blobs × AllSentBelow ds

  AllSentBelow : Directories → Type 0
  AllSentBelow no_more = Unit
  AllSentBelow (entry prefix d ds) = AllSent d × AllSentBelow ds

module _ (pages : List ℕ → Option (List ℕ) → List Page) where
  unfoldable mutual
    unfolding prefixes

    -- The container has the directory under a prefix: one page, without a marker, has its blobs and its
    -- directories, which the container has too.
    pub IsHeld : List ℕ → Directory → Type 0
    IsHeld prefix (directory ds blobs) =
        (pages prefix none ≡ page none (prefixes ds) blobs ∷ []) × AreHeld ds

    AreHeld : Directories → Type 0
    AreHeld no_more = Unit
    AreHeld (entry prefix d ds) = IsHeld prefix d × AreHeld ds

  mutual
    unfolding list_blobs_hierarchy page_loop prefix_loop all_names size prefixes IsHeld AllSent

    -- The listing of a directory, and that of the directories below one.
    list_blobs_hierarchy-all_names :
        (fuel : ℕ) (prefix : List ℕ) (d : Directory)
        → size d ≤ fuel
        → IsHeld prefix d
        → AllSent d
        → list_blobs_hierarchy false pages fuel prefix none ≡ (all_names d, true)
    list_blobs_hierarchy-all_names zero prefix (directory ds blobs) le h g = absurd (omega arith)
    list_blobs_hierarchy-all_names (suc fuel) prefix (directory ds blobs) le (one, below)
          (sent, sent_below) =
        ground (
          arith,
          one,
          blob_loop-names blobs sent,
          prefix_loop-names_below fuel ds (omega arith) below sent_below,
          append_assoc (names_below ds) (names blobs) [],
          append-nil (names blobs),
        )

    prefix_loop-names_below :
        (fuel : ℕ) (ds : Directories)
        → size_below ds ≤ fuel
        → AreHeld ds
        → AllSentBelow ds
        → prefix_loop (λ p. list_blobs_hierarchy false pages fuel p none) (prefixes ds)
          ≡ (names_below ds, true)
    prefix_loop-names_below fuel no_more le h g = refl
    prefix_loop-names_below fuel (entry prefix d ds) le (first, others) (sent, sent_below) =
        rw (list_blobs_hierarchy-all_names fuel prefix d (omega arith) first sent)
          (rw (prefix_loop-names_below fuel ds (omega arith) others sent_below))

  -- A source that is not flat, on a container whose directories each fit on one page, where every
  -- download succeeds and nothing is cancelled, and with at least as many nested calls as there are
  -- directories, comes to the end of its listing and has sent every blob below its prefix exactly
  -- once: the directories first, each with those below it, and then the blobs.
  pub list_blobs-all_names :
      (config : BlobStorageSourceConfig) (d : Directory) (fuel : ℕ)
      → config.flat ≡ false
      → IsHeld config.prefix d
      → AllSent d
      → size d ≤ fuel
      → list_blobs config pages fuel ≡ (all_names d, true)
  unfolding list_blobs
  list_blobs-all_names config d fuel nested held sent enough =
      rw nested (list_blobs_hierarchy-all_names fuel config.prefix d enough held sent)
