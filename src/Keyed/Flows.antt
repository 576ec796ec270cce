-- ===== src/Keyed/Flows.antt =====
-- Single operations on the map of keyed flows (flow/keyed.go).
use go_streams.Prelude.{
  Bool, true, false, Option, none, some, List, [], ◌∷◌, ◌++◌, ◌≡◌, ◌↔◌, refl, arith, if◌then◌else◌,
}
use go_streams.Channel.{Chan, ok}
use go_streams.Keyed.{find_flow, send_keyed, close_all}

module _ {K Any : Type 0} where
  abbrev pub AllOpen : List (K × Chan Any) → Type 0
  AllOpen [] = Unit
  AllOpen ((k, c) ∷ m) = (c.closed ≡ false) × AllOpen m

  abbrev pub closed_flows : List (K × Chan Any) → List (K × Chan Any)
  closed_flows [] = []
  closed_flows ((k, c) ∷ m) = (k, record { history = c.history; closed = true }) ∷ closed_flows m

-- The flow of a key that has received these elements; there is none before the first.
abbrev pub flow_of : {Any : Type 0} → Bool → List Any → Option (Chan Any)
flow_of closed [] = none
flow_of closed (e ∷ es) = some (record { history = e ∷ es; closed = closed })

module _ {K Any : Type 0} (same_key : K → K → Bool)
    (same_key_iff : (a b : K) → (same_key a b ≡ true) ↔ (a ≡ b)) where
  -- The map after a send on a flow that is there.
  abbrev pub added : K → Any → List (K × Chan Any) → List (K × Chan Any)
  added key e [] = []
  added key e ((k, c) ∷ m) =
      if same_key k key
      then (k, record { history = c.history ++ (e ∷ []); closed = false }) ∷ m
      else (k, c) ∷ added key e m

  pub send_keyed-open :
      (key : K) (e : Any) (m : List (K × Chan Any))
      → AllOpen m
      → (send_keyed same_key key e m ≡ ok (added key e m)) × AllOpen (added key e m)
  unfolding send_keyed
  send_keyed-open key e [] o = (refl, tt)
  send_keyed-open key e ((k, c) ∷ m) (open_c, o) = ground (arith, send_keyed-open key e m o)

  pub close_all-open :
      (m : List (K × Chan Any)) → AllOpen m → close_all same_key m ≡ ok (closed_flows m)
  unfolding close_all
  close_all-open [] o = refl
  close_all-open ((k, c) ∷ m) (open_c, o) = ground (arith, close_all-open m o)

  pub find_flow-added :
      (key key' : K) (e : Any) (m : List (K × Chan Any)) {c : Chan Any}
      → find_flow same_key key m ≡ some c
      → find_flow same_key key' (added key e m) ≡ (
          if same_key key key'
          then some (record { history = c.history ++ (e ∷ []); closed = false })
          else find_flow same_key key' m)
  unfolding find_flow
  find_flow-added key key' e [] h = cc
  find_flow-added key key' e ((k, d) ∷ m) {c} h = ground (
    arith,
    same_key_iff k key,
    same_key_iff k key',
    same_key_iff key key',
    find_flow-added key key' e m {c = c},
  )

  pub find_flow-closed_flows :
      (key : K) (m : List (K × Chan Any)) (es : List Any)
      → find_flow same_key key m ≡ flow_of false es
      → find_flow same_key key (closed_flows m) ≡ flow_of true es
  unfolding find_flow
  find_flow-closed_flows key [] [] h = refl
  find_flow-closed_flows key [] (e ∷ es) h = cc
  find_flow-closed_flows key ((k, d) ∷ m) [] h = ground (arith, find_flow-closed_flows key m [])
  find_flow-closed_flows key ((k, d) ∷ m) (e ∷ es) h =
      ground (arith, find_flow-closed_flows key m (e ∷ es))
