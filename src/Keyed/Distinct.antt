-- ===== src/Keyed/Distinct.antt =====
-- The keys of the map of keyed flows stay distinct (flow/keyed.go).
use go_streams.Prelude.{Bool, true, none, List, [], ◌∷◌, ◌≡◌, ◌↔◌, refl, arith}
use go_streams.Channel.{Chan}
use go_streams.Keyed.{find_flow}
use go_streams.Keyed.Flows.{closed_flows, added, find_flow-closed_flows}

module _ {K Any : Type 0} (same_key : K → K → Bool)
    (same_key_iff : (a b : K) → (same_key a b ≡ true) ↔ (a ≡ b)) where
  -- No key is stored twice.
  abbrev pub IsDistinct : List (K × Chan Any) → Type 0
  IsDistinct [] = Unit
  IsDistinct ((k, c) ∷ m) = (find_flow same_key k m ≡ none) × IsDistinct m

  find_flow-added-none :
      (k key : K) (e : Any) (m : List (K × Chan Any))
      → find_flow same_key k m ≡ none
      → find_flow same_key k (added same_key same_key_iff key e m) ≡ none
  unfolding find_flow
  find_flow-added-none k key e [] h = refl
  find_flow-added-none k key e ((l, c) ∷ m) h = ground (arith, find_flow-added-none k key e m)

  pub added-IsDistinct :
      (key : K) (e : Any) (m : List (K × Chan Any))
      → IsDistinct m
      → IsDistinct (added same_key same_key_iff key e m)
  added-IsDistinct key e [] h = tt
  added-IsDistinct key e ((k, c) ∷ m) (new, h) =
      ground (arith, new, h, find_flow-added-none k key e m new, added-IsDistinct key e m h)

  pub closed_flows-IsDistinct :
      (m : List (K × Chan Any)) → IsDistinct m → IsDistinct (closed_flows m)
  closed_flows-IsDistinct [] h = tt
  closed_flows-IsDistinct ((k, c) ∷ m) (new, h) =
      (find_flow-closed_flows same_key same_key_iff k m [] new, closed_flows-IsDistinct m h)
