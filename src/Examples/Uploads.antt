-- ===== src/Examples/Uploads.antt =====
-- The program that uploads strings, at a concrete input (examples/azure/blob/main.go).
use go_streams.Prelude.{ℕ, true, some, List, [], ◌∷◌, ◌≡◌, ◌⊎◌, refl, map, pos, ap, arith}
use go_streams.Pipeline.{
  spent, via, closed, Program, Runs, here, ◌⨾◌, Run, work, sink_receive, sink_done, inner, receive,
  again, finish, close_out, close_source, source_gives, send, Crash,
}
use go_streams.Pipeline.Operators.{forwarder}
use go_streams.Map.{Map, new_map, map_body}
use go_streams.Programs.OneMap.{worker}
use go_streams.Programs.Keys.{
  BlobObject, to_blob, get_key, string_value as text_value, blob_value, as_string, upload,
  chan_values,
}
use go_streams.Programs.Keys
use go_streams.Programs.Keys.Upload.{IsDistinct, upload_complete}

-- The Map of the program that uploads three strings.
abbrev to_blobs : Map (List ℕ) BlobObject
to_blobs = record { map_function = to_blob; parallelism = 1 }

to_blobs-made : new_map to_blob (pos 1) ≡ some to_blobs
unfolding new_map
to_blobs-made = refl

abbrev upload_end : Program Keys.Value
upload_end = record {
  chain =
      (via (via (via spent (forwarder) tt closed) (worker as_string blob_value to_blobs) tt closed)
        (forwarder) tt closed);
  sunk =
      blob_value (to_blob (97 ∷ 97 ∷ []))
      ∷ blob_value (to_blob (98 ∷ []))
      ∷ blob_value (to_blob (99 ∷ []))
      ∷ [];
  done = true;
}

upload_run : Runs 29 (upload to_blobs (map text_value chan_values)) upload_end
unfolding map_body
upload_run =
    here
    ⨾ work (inner (inner (receive source_gives refl)))
    ⨾ work (inner (receive send refl))
    ⨾ work (receive send refl)
    ⨾ sink_receive send
    ⨾ work again
    ⨾ work (inner again)
    ⨾ work (inner (inner again))
    ⨾ work (inner (inner (receive source_gives refl)))
    ⨾ work (inner (receive send refl))
    ⨾ work (receive send refl)
    ⨾ sink_receive send
    ⨾ work again
    ⨾ work (inner again)
    ⨾ work (inner (inner again))
    ⨾ work (inner (inner (receive source_gives refl)))
    ⨾ work (inner (receive send refl))
    ⨾ work (receive send refl)
    ⨾ sink_receive send
    ⨾ work again
    ⨾ work (inner again)
    ⨾ work (inner (inner again))
    ⨾ work (inner (inner (inner close_source)))
    ⨾ work (inner (inner (finish refl)))
    ⨾ work (inner (inner close_out))
    ⨾ work (inner (finish refl))
    ⨾ work (inner close_out)
    ⨾ work (finish refl)
    ⨾ work close_out
    ⨾ sink_done refl

head_byte : List ℕ → ℕ
head_byte [] = 0
head_byte (c ∷ cs) = c

upload_complete_example :
    (¬ Crash upload_end.chain)
    × IsDistinct (map (λ b. b.key) (map to_blob chan_values))
    × (((upload_end.done ≡ true) × (upload_end.sunk ≡ map blob_value (map to_blob chan_values)))
        ⊎ ((q : Program Keys.Value) × Run upload_end q))
unfolding head_byte
upload_complete_example =
    upload_complete chan_values to_blobs-made
      ((λ h. cc h, (λ h. cc h, tt)), ((λ h. omega (arith, ap head_byte h), tt), (tt, tt)))
      upload_run
