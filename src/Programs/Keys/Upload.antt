-- ===== src/Programs/Keys/Upload.antt =====
-- What the program of examples/azure/blob/main.go uploads.
use go_streams.Prelude.{
  ℕ, true, some, List, [], ◌∷◌, ◌≡◌, ◌≢◌, ◌⊎◌, inl, inr, refl, ap, ◌∙◌, map, pos, All,
}
use go_streams.Element.{typed_prefix, all_typed}
use go_streams.Map.{Map, new_map}
use go_streams.Pipeline.{Crash, Program, Run, Runs}
use go_streams.Programs.Keys.{
  get_key, BlobObject, to_blob, Value, string_value, blob_value, as_string, upload,
}
use go_streams.Programs.Keys.Laws.{get_key-injective}
use go_streams.Programs.OneMap.{one_map_complete}

-- No two of the strings are the same.
abbrev pub IsDistinct : List (List ℕ) → Type 0
IsDistinct [] = Unit
IsDistinct (v ∷ vs) = All (λ w. v ≢ w) vs × IsDistinct vs

keys_differ :
    (v : List ℕ) (ws : List (List ℕ))
    → All (λ w. v ≢ w) ws
    → All (λ k. get_key v ≢ k) (map get_key ws)
keys_differ v [] h = tt
keys_differ v (w ∷ ws) h = (λ e. h.0 (get_key-injective v w e), keys_differ v ws h.1)

IsDistinct-keys : (vs : List (List ℕ)) → IsDistinct vs → IsDistinct (map get_key vs)
IsDistinct-keys [] h = tt
IsDistinct-keys (v ∷ vs) h = (keys_differ v vs h.0, IsDistinct-keys vs h.1)

keys-to_blob : (vs : List (List ℕ)) → map (λ b. b.key) (map to_blob vs) ≡ map get_key vs
unfolding to_blob
keys-to_blob [] = refl
keys-to_blob (v ∷ vs) = ap (λ l. get_key v ∷ l) (keys-to_blob vs)

typed_strings :
    (vs : List (List ℕ))
    → (typed_prefix as_string (map string_value vs) ≡ vs)
      × (all_typed as_string (map string_value vs) ≡ true)
typed_strings [] = (refl, refl)
typed_strings (v ∷ vs) = (ap (λ l. v ∷ l) (typed_strings vs).0, (typed_strings vs).1)

-- The program that uploads different strings, under every interleaving of its goroutines: no goroutine
-- panics, and either the sink is done and has been given one object for each string, in order, of
-- which no two have the same key, or the program can go on.
pub upload_complete :
    (vs : List (List ℕ)) {m : Map (List ℕ) BlobObject} {k : ℕ} {p : Program Value}
    → new_map to_blob (pos 1) ≡ some m
    → IsDistinct vs
    → Runs k (upload m (map string_value vs)) p
    → (¬ Crash p.chain)
      × IsDistinct (map (λ b. b.key) (map to_blob vs))
      × (((p.done ≡ true) × (p.sunk ≡ map blob_value (map to_blob vs)))
          ⊎ ((q : Program Value) × Run p q))
upload_complete vs made distinct run =
    let (no_crash, result) =
      one_map_complete as_string blob_value to_blob (map string_value vs) made (typed_strings vs).1
        run in
    (
      no_crash,
      rw (keys-to_blob vs) (IsDistinct-keys vs distinct),
      elim result [
        | inl (d, got) ↦
            inl (d, got ∙ ap (λ ws. map blob_value (map to_blob ws)) (typed_strings vs).0)
        | inr q ↦ inr q
      ],
    )
