-- ===== src/Aws/S3Source/Laws.antt =====
-- Which objects the S3Source sends, and with which data (aws/s3.go).
use go_streams.Prelude.{
  ℕ, zero, suc, ◌-◌, ◌≤◌, true, Option, none, some, List, [], ◌∷◌, ◌++◌, ◌≡◌, ◌≢◌, refl, sym, ap,
  ◌∙◌, arith, length, length-append, replicate, append-nil, map, take, SameBag,
}
use go_streams.Pool.{Pool}
use go_streams.Pool.Inv.{produced, Reach-Inv}
use go_streams.Pool.Laws.{closed_complete}
use go_streams.Aws.S3Source.{
  S3SourceConfig, S3Object, new_s3_source, ListResponse, page, list_objects, filled, get_body,
  GetObjects,
}

module _ {Token : Type 0} (list_objects_v2 : Option Token → ListResponse Token) where
  -- The store has the keys, on one page after the other, from a token on.
  pub data IsListing : Option Token → List (List ℕ) → Type 0 where
    last_page :
        {token : Option Token} {contents : List (List ℕ)}
        → list_objects_v2 token ≡ page contents none
        → IsListing token contents
    next_page :
        {token : Option Token} {next : Token} {contents keys : List (List ℕ)}
        → list_objects_v2 token ≡ page contents (some next)
        → IsListing (some next) keys
        → IsListing token (contents ++ keys)

  -- On a store that lists its keys page by page, `listObjects` comes to an end after so many pages:
  -- it has sent all keys, in their order, and closed the channel of the readers.
  list_objects-IsListing :
      {token : Option Token} {keys : List (List ℕ)}
      → IsListing token keys
      → (pages : ℕ) × (list_objects list_objects_v2 pages token
          ≡ record { sent = keys; exited = true })
  unfolding list_objects
  list_objects-IsListing (last_page {contents} e) =
      (1, rw (e, list_objects) (ap (λ l. record { sent = l; exited = true }) (append-nil contents)))
  list_objects-IsListing (next_page {contents} e rest) =
      let (pages, ran) = list_objects-IsListing rest in (suc pages, rw (e, list_objects) (rw ran))

module _ {Body : Type 0} (get_object : List ℕ → Option Body)
    (first_read : ℕ → Body → Option (List ℕ)) where
  reader_count-positive : (config : S3SourceConfig) → 1 ≤ (new_s3_source config).0
  unfolding new_s3_source
  reader_count-positive config = ground arith

  -- The store gives a body for every key, of which a read gives `content`.
  abbrev pub IsReadable : ℕ → (List ℕ → List ℕ) → Type 0
  IsReadable chunk_size content =
      (key : List ℕ)
      → (body : Body) × (get_object key ≡ some body)
        × (first_read chunk_size body ≡ some (content key))

  -- The object that is sent for a key.
  abbrev pub object_for : ℕ → (List ℕ → List ℕ) → List ℕ → S3Object
  object_for chunk_size content key = record {
    key = key;
    data_bytes = filled get_object first_read chunk_size (content key);
  }

  produced-get_body :
      (chunk_size : ℕ) (content : List ℕ → List ℕ) (keys : List (List ℕ))
      → IsReadable chunk_size content
      → produced (get_body get_object first_read chunk_size) keys
        ≡ map (object_for chunk_size content) keys
  unfolding get_body
  produced-get_body chunk_size content [] readable = refl
  produced-get_body chunk_size content (key ∷ keys) readable =
      let (body, got, read) = readable key in
      ground (arith, got, read, produced-get_body chunk_size content keys readable)

  -- When the source has closed its output, after any interleaving of its readers and wherever the
  -- context was cancelled, it has sent one object for each key that they received, with the
  -- buffer that its read has filled, in some order.
  GetObjects-complete :
      (config : S3SourceConfig) (content : List ℕ → List ℕ) (taken : ℕ) (keys : List (List ℕ))
      {k : ℕ} {s : Pool (List ℕ) S3Object}
      → IsReadable (new_s3_source config).1 content
      → GetObjects get_object first_read config taken keys k s
      → s.out.closed ≡ true
      → SameBag s.out.history (map (object_for (new_s3_source config).1 content) (take taken keys))
  GetObjects-complete config content taken keys {k} {s} readable run closed =
      rw (← produced-get_body (new_s3_source config).1 content (take taken keys) readable)
        (closed_complete
          (Reach-Inv (new_s3_source config).0
            (get_body get_object first_read (new_s3_source config).1) (take taken keys) run)
          (reader_count-positive config) closed).1

  -- Every object that the source sends has data of exactly the chunk size, if a read gives at most as
  -- many bytes: so for an object of another size the data is not the object's content. A larger one
  -- is cut off, and a smaller one is followed by zeros.
  get_body-altered :
      (chunk_size : ℕ) (key : List ℕ) (body : Body) (bytes content : List ℕ)
      → get_object key ≡ some body
      → first_read chunk_size body ≡ some bytes
      → length bytes ≤ chunk_size
      → length content ≢ chunk_size
      → (o : S3Object) × (get_body get_object first_read chunk_size key ≡ some (o ∷ []))
        × (length o.data_bytes ≡ chunk_size)
        × (o.data_bytes ≢ content)
  unfolding get_body filled
  get_body-altered chunk_size key body bytes content got read fits other_size = (
    record { key = key; data_bytes = bytes ++ replicate (chunk_size - length bytes) 0 },
    ground (arith, got, read),
    full,
    λ same. other_size (ap length (sym same) ∙ full),
  )
    where
      length-replicate : (n : ℕ) → length (replicate {A = ℕ} n 0) ≡ n
      length-replicate zero = refl
      length-replicate (suc n) = ap suc (length-replicate n)

      full : length (bytes ++ replicate (chunk_size - length bytes) 0) ≡ chunk_size
      full = omega (
        arith,
        length-append bytes (replicate (chunk_size - length bytes) 0),
        length-replicate (chunk_size - length bytes),
      )
