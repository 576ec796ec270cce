-- ===== src/Azure/Source/Relist.antt =====
-- A listing of more than one page (azure/blob_storage.go, listBlobsHierarchy). The service answers
-- with the marker of the request in `Marker` (and with that of the next page in `NextMarker`).
use go_streams.Prelude.{
  ℕ, zero, suc, Bool, true, false, Option, some, List, [], ◌∷◌, ◌≡◌, refl, arith, All, append-nil,
  concat, map, replicate,
}
use go_streams.Azure.Source.{
  Blob, Page, page, blob_loop, page_loop, prefix_loop, list_blobs_hierarchy,
}

-- It can be downloaded, and is sent.
abbrev pub IsSent : Blob → Type 0
IsSent b = (b.readable ≡ true) × (b.cancelled ≡ false)

abbrev pub names : List Blob → List (List ℕ)
names = map (λ (b : Blob). b.name)

pub blob_loop-names : (bs : List Blob) → All IsSent bs → blob_loop bs ≡ (names bs, false)
unfolding blob_loop
blob_loop-names [] h = refl
blob_loop-names (b ∷ bs) ((r, c), h) = rw (blob_loop-names bs h) (rw (r, c))

-- If the pager that starts at a marker gives one last page, with that marker in its `Marker` and
-- blobs that can all be sent, a listing from that marker never comes to its end: however many nested
-- calls it makes, each sends the same blobs once more.
pub list_blobs_hierarchy-repeats :
    (flat : Bool) (pages : List ℕ → Option (List ℕ) → List Page) (prefix : List ℕ) (b : ℕ)
    (bs : List ℕ) (blobs : List Blob)
    → pages prefix (some (b ∷ bs)) ≡ page (some (b ∷ bs)) [] blobs ∷ []
    → All IsSent blobs
    → (fuel : ℕ)
    → list_blobs_hierarchy flat pages fuel prefix (some (b ∷ bs))
      ≡ (concat (replicate fuel (names blobs)), false)
unfolding list_blobs_hierarchy page_loop prefix_loop
list_blobs_hierarchy-repeats flat pages prefix b bs blobs last_page sent zero = refl
list_blobs_hierarchy-repeats flat pages prefix b bs blobs last_page sent (suc fuel) = ground (
  arith,
  last_page,
  blob_loop-names blobs sent,
  list_blobs_hierarchy-repeats flat pages prefix b bs blobs last_page sent fuel,
  append-nil (names blobs),
)
