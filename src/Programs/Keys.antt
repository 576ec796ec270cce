-- ===== src/Programs/Keys.antt =====
-- The keys under which the programs of examples/azure/blob/main.go and examples/aws/s3/main.go store
-- objects.
pub mod Laws
pub mod Upload
use go_streams.Prelude.{
  ℕ, zero, suc, ◌-◌, Bool, true, false, ◌&&◌, Option, none, some, List, [], ◌∷◌, ◌++◌, map,
  if◌then◌else◌, ltb, ◌==◌, length,
}
use go_streams.Map.{Map}
use go_streams.Pipeline.{Program}
use go_streams.Programs.OneMap.{one_map}

-- Strings, as their bytes.
abbrev slash : ℕ
slash = 47

abbrev txt : List ℕ
txt = 46 ∷ 116 ∷ 120 ∷ 116 ∷ []

abbrev pub source_name : List ℕ
source_name = 115 ∷ 111 ∷ 117 ∷ 114 ∷ 99 ∷ 101 ∷ []

abbrev pub sink_name : List ℕ
sink_name = 115 ∷ 105 ∷ 110 ∷ 107 ∷ []

-- `getKey`
unfoldable pub get_key : List ℕ → List ℕ
get_key value = if ltb 1 (length value) then value ++ (slash ∷ (value ++ txt)) else value ++ txt

-- A BlobStorageObject: its key and its data.
pub record BlobObject : Type 0 where
  pub key : List ℕ
  pub content : List ℕ

-- The function of `toBlobStorageFlow`
unfoldable pub to_blob : List ℕ → BlobObject
unfolding get_key
to_blob value = record { key = get_key value; content = value }

-- The dynamic types of what goes through the channels of the Azure program.
pub data Value : Type 0 where
  string_value : List ℕ → Value
  blob_value : BlobObject → Value

abbrev pub as_string : Value → Option (List ℕ)
as_string (string_value s) = some s
as_string (blob_value b) = none

-- The first program of `main`, with the Map of `toBlobStorageFlow`, over what its source delivers.
abbrev pub upload : Map (List ℕ) BlobObject → List Value → Program Value
upload m es = one_map as_string blob_value m es

-- What the channel of `newChanSource` holds: the strings "aa", "b" and "c".
abbrev pub chan_values : List (List ℕ)
chan_values = (97 ∷ 97 ∷ []) ∷ (98 ∷ []) ∷ (99 ∷ []) ∷ []

-- The string begins with the other one.
has_prefix : List ℕ → List ℕ → Bool
has_prefix [] s = true
has_prefix (c ∷ cs) [] = false
has_prefix (c ∷ cs) (d ∷ s) = (c == d) && has_prefix cs s

-- `strings.ReplaceAll`, where `skip` bytes of the last match are still to be passed over.
replace_from : ℕ → List ℕ → List ℕ → List ℕ → List ℕ
unfolding has_prefix
replace_from skip old new [] = []
replace_from (suc skip) old new (c ∷ s) = replace_from skip old new s
replace_from zero old new (c ∷ s) =
    let matched = replace_from (length old - 1) old new s in
    let unmatched = replace_from zero old new s in
    if has_prefix old (c ∷ s) then new ++ matched else c ∷ unmatched

-- `transform` of the S3 program, on the key of an object
unfoldable pub s3_transform : List ℕ → List ℕ
unfolding replace_from
s3_transform key = replace_from 0 source_name sink_name key
