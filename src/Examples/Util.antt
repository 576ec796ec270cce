-- ===== src/Examples/Util.antt =====
-- The stream combinators of flow/util.go, and the keyed flow (flow/keyed.go).
use go_streams.Prelude.{
  ◌+◌, arith, ℕ, ◌↔◌, Bool, true, false, not, some, List, [], ◌∷◌, ◌≡◌, refl, length, keep, map,
  ltb,
}
use go_streams.Channel.{ok}
use go_streams.ZipWith.{zip_with}
use go_streams.ZipWith.Laws.{rows, zip_with_lem}
use go_streams.Keyed.{Keyed, new_keyed, find_flow, stream}
use go_streams.Keyed.Distinct.{IsDistinct}
use go_streams.Keyed.Flows.{flow_of}
use go_streams.Keyed.Laws.{has_key, keyed_lem}
use go_streams.Examples.Data.{Dynamic, number, as_number}

abbrev mixed : List Dynamic
mixed = number 3 ∷ number 8 ∷ number 4 ∷ []

abbrev below_five : ℕ → Bool
below_five n = ltb n 5

box_lem : (n : ℕ) → as_number (number n) ≡ some n
box_lem n = refl

-- Two columns of which the second one ends first.
abbrev columns : List (List ℕ)
columns = (1 ∷ 2 ∷ 3 ∷ []) ∷ (4 ∷ []) ∷ []

abbrev total : List ℕ → ℕ
total [] = 0
total (n ∷ ns) = n + total ns

zip_with_example :
    zip_with as_number 0 total (map (map number) columns)
    ≡ some
        (ok (record { history = rows as_number 0 total number box_lem 3 columns; closed = true }))
zip_with_example = zip_with_lem as_number 0 total number box_lem columns (omega arith)

abbrev no_flows : Keyed Bool Dynamic
no_flows = record { keyed_flows = []; workflows = 0 }

same_bool : Bool → Bool → Bool
same_bool true b = b
same_bool false b = not b

same_bool_iff : (a b : Bool) → (same_bool a b ≡ true) ↔ (a ≡ b)
unfolding same_bool
same_bool_iff true true = (λ h. refl, λ h. refl)
same_bool_iff true false = (λ h. cc, λ h. cc)
same_bool_iff false true = (λ h. cc, λ h. cc)
same_bool_iff false false = (λ h. refl, λ h. refl)

no_flows-made : new_keyed (true ∷ []) ≡ some no_flows
unfolding new_keyed
no_flows-made = refl

keyed_example :
    (k' : Keyed Bool Dynamic) × (stream same_bool as_number below_five mixed no_flows ≡ ok k')
    × (k'.workflows ≡ length k'.keyed_flows)
    × IsDistinct same_bool same_bool_iff k'.keyed_flows
    × ((key : Bool)
        → find_flow same_bool key k'.keyed_flows
          ≡ flow_of true (keep (has_key same_bool same_bool_iff as_number below_five key) mixed))
keyed_example =
    keyed_lem same_bool same_bool_iff as_number below_five (true ∷ []) mixed no_flows-made refl
