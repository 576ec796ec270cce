-- ===== src/Examples/Composed.antt =====
-- Operators connected with each other, and what can be seen of the windows, at concrete inputs.
use go_streams.Prelude.{
  ℕ, Bool, true, false, Option, some, List, [], ◌∷◌, ◌≡◌, refl, arith, map, pos, ltb, SameBag, not,
  concat, ◌↔◌,
}
use go_streams.Channel.{Chan, ok, make_chan}
use go_streams.Element.{typed_prefix}
use go_streams.Batch
use go_streams.Batch.{Batch, new_batch, Event, element, tick, batch_stream}
use go_streams.Batch.Laws.{elements}
use go_streams.Pool
use go_streams.Pool.{Pool}
use go_streams.FlatMap.{FlatMap, new_flat_map, flatten, flat_map_body, Stream}
use go_streams.Split.{Branches, make_branches, split}
use go_streams.Merge
use go_streams.Merge.{Merge, init}
use go_streams.Keyed
use go_streams.Keyed.{Keyed, new_keyed}
use go_streams.Keyed.Collect.{keyed_elementwise}
use go_streams.Compose.BatchFlatten.{batch-flatten}
use go_streams.Compose.SplitMerge.{split-merge}
use go_streams.Examples.Data.{Dynamic, number, as_number}

-- Batches of at most two, of which a tick cuts one off.
abbrev in_pairs : Batch ℕ
in_pairs = record { max_batch_size = 2; time_interval = pos 10; out = make_chan; buffer = [] }

in_pairs-made : new_batch (pos 2) (pos 10) ≡ some in_pairs
unfolding new_batch
in_pairs-made = refl

abbrev one_and_tick : List (Event Dynamic)
one_and_tick = element (number 1) ∷ tick ∷ []

abbrev batched : Batch ℕ
batched = record in_pairs { out = record { history = (1 ∷ []) ∷ []; closed = true } }

batched-ran : batch_stream as_number one_and_tick in_pairs ≡ ok batched
unfolding batch_stream
batched-ran = refl

abbrev passed : Chan (List ℕ)
passed = record { history = (1 ∷ []) ∷ []; closed = true }

batched-passed : Batch.transmit batched.out.history make_chan ≡ ok passed
unfolding Batch.transmit
batched-passed = refl

abbrev box_batch : List ℕ → Option (List ℕ)
box_batch batch = some batch

abbrev as_batch : Option (List ℕ) → Option (List ℕ)
as_batch a = a

abbrev joiner : FlatMap (List ℕ) ℕ
joiner = record { flat_map_function = λ batch. batch; parallelism = 1 }

joiner-made : flatten (pos 1) ≡ some joiner
unfolding flatten new_flat_map
joiner-made = refl

abbrev joined : Pool (Option (List ℕ)) ℕ
joined = record {
  input = [];
  workers = Pool.exited ∷ [];
  wg = 0;
  out = record { history = 1 ∷ []; closed = true };
  main = Pool.finished;
}

joined_run : Stream as_batch joiner (map box_batch passed.history) 7 joined
unfolding flat_map_body
joined_run =
    Pool.next
      (Pool.next
        (Pool.next
          (Pool.next
            (Pool.next
              (Pool.next (Pool.next Pool.here (Pool.start refl (omega arith)))
                (Pool.all_started refl (omega arith)))
              (Pool.receive [] [] (some (1 ∷ [])) [] (1 ∷ []) refl refl refl))
            (Pool.deliver [] [] 1 [] refl refl))
          (Pool.again [] [] refl))
        (Pool.exit [] [] refl refl))
      (Pool.finish refl refl refl)

batch-flatten_example : joined.out.history ≡ typed_prefix as_number (elements one_and_tick)
batch-flatten_example =
    batch-flatten box_batch as_batch (λ batch. refl) as_number (pos 2) (pos 10) one_and_tick
      in_pairs-made batched-ran batched-passed joiner-made joined_run refl

abbrev is_small : ℕ → Bool
is_small n = ltb n 5

abbrev two_numbers : List Dynamic
two_numbers = number 8 ∷ number 3 ∷ []

abbrev divided : Branches Dynamic
divided = record {
  cond_true = record { history = number 3 ∷ []; closed = true };
  cond_false = record { history = number 8 ∷ []; closed = true };
}

divided-ran : split as_number is_small two_numbers make_branches ≡ ok divided
unfolding split
divided-ran = refl

-- Two outlets with one element each, merged.
abbrev merged_two : {A : Type 0} → A → A → Merge A
merged_two a b = record {
  forwarders = Merge.exited ∷ Merge.exited ∷ [];
  wg = 0;
  merged = record { history = a ∷ b ∷ []; closed = true };
}

merged_two_run :
    {A : Type 0} (a b : A) → Merge.Reach (init ((a ∷ []) ∷ (b ∷ []) ∷ [])) (merged_two a b)
merged_two_run a b =
    Merge.next
      (Merge.next
        (Merge.next
          (Merge.next
            (Merge.next
              (Merge.next
                (Merge.next Merge.here (Merge.receive [] (Merge.ranging (b ∷ []) ∷ []) a [] refl))
                (Merge.deliver [] (Merge.ranging (b ∷ []) ∷ []) a [] refl refl))
              (Merge.receive (Merge.ranging [] ∷ []) [] b [] refl))
            (Merge.deliver (Merge.ranging [] ∷ []) [] b [] refl refl))
          (Merge.done [] (Merge.ranging [] ∷ []) refl))
        (Merge.done (Merge.exited ∷ []) [] refl))
      (Merge.close_merged refl refl)

split-merge_example : SameBag (merged_two (number 3) (number 8)).merged.history two_numbers
split-merge_example =
    split-merge as_number is_small two_numbers divided-ran (merged_two_run (number 3) (number 8))
      refl

abbrev no_keys : Keyed Bool Dynamic
no_keys = record { keyed_flows = []; workflows = 0 }

no_keys-made : new_keyed (true ∷ []) ≡ some no_keys
unfolding new_keyed
no_keys-made = refl

abbrev two_keys : Keyed Bool Dynamic
two_keys = record {
  keyed_flows =
      (true, record { history = number 3 ∷ []; closed = true })
      ∷ (false, record { history = number 8 ∷ []; closed = true })
      ∷ [];
  workflows = 2;
}

abbrev is_same : Bool → Bool → Bool
is_same true b = b
is_same false b = not b

is_same_iff : (a b : Bool) → (is_same a b ≡ true) ↔ (a ≡ b)
is_same_iff true true = (λ h. refl, λ h. refl)
is_same_iff true false = (λ h. cc, λ h. cc)
is_same_iff false true = (λ h. cc, λ h. cc)
is_same_iff false false = (λ h. refl, λ h. refl)

two_keys-ran : Keyed.stream is_same as_number is_small two_numbers no_keys ≡ ok two_keys
unfolding Keyed.stream
two_keys-ran = refl

abbrev pass_on : List Dynamic → List Dynamic
pass_on es = es

abbrev itself : Dynamic → List Dynamic
itself e = e ∷ []

pass_on-elementwise : (es : List Dynamic) → SameBag (pass_on es) (concat (map itself es))
pass_on-elementwise [] w = refl
pass_on-elementwise (e ∷ es) w = omega (arith, pass_on-elementwise es w)

keyed_elementwise_example :
    SameBag (merged_two (number 3) (number 8)).merged.history (concat (map itself two_numbers))
keyed_elementwise_example =
    keyed_elementwise is_same is_same_iff itself pass_on pass_on-elementwise as_number is_small
      (true ∷ []) two_numbers no_keys-made two_keys-ran (merged_two_run (number 3) (number 8)) refl
