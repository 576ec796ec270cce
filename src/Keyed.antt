-- ===== src/Keyed.antt =====
-- flow/keyed.go: a flow of its own for the elements of each key. What the operators of a key do with
-- their elements is a matter of those operators; here is how the elements reach them. The collecting
-- goroutines with their WaitGroup are those of `Merge`, over the tails of the workflows.
pub mod Flows
pub mod Distinct
pub mod Laws
pub mod Collect
use go_streams.Prelude.{
  ℕ, zero, suc, ◌+◌, Bool, true, false, Option, none, some, List, [], ◌∷◌, length, if◌then◌else◌,
}
use go_streams.Channel.{Chan, Outcome, ok, panic, ◌>>=◌, make_chan, send, close, expect, forward}

-- The map `keyedFlows`, with the input channel of each workflow. `workflows` is the number of
-- workflows built, each of which did `wg.Add(1)` and applied every operator supplier once.
pub record Keyed (K Any : Type 0) : Type 0 where
  pub keyed_flows : List (K × Chan Any)
  pub workflows : ℕ

-- `NewKeyed` on the list of operator suppliers; `none` is its panic on an empty one.
unfoldable pub new_keyed : {K Any Operator : Type 0} → List Operator → Option (Keyed K Any)
new_keyed [] = none
new_keyed (op ∷ ops) = some (record { keyed_flows = []; workflows = 0 })

module _ {K Any : Type 0} (same_key : K → K → Bool) where
  pub find_flow : K → List (K × Chan Any) → Option (Chan Any)
  find_flow key [] = none
  find_flow key ((k, c) ∷ m) = if same_key k key then some c else find_flow key m

  -- `getKeyedFlow`: on the first element for a key it builds the workflow and stores it.
  unfoldable pub get_keyed_flow : K → Keyed K Any → Keyed K Any
  unfolding find_flow
  get_keyed_flow key k = elim (find_flow key k.keyed_flows) [
    | some c ↦ k
    | none ↦ record k {
      keyed_flows = (key, make_chan) ∷ k.keyed_flows;
      workflows = k.workflows + 1;
    }
  ]

  -- `keyedFlow.In() <- element`, on the flow that the map holds for the key.
  pub send_keyed : K → Any → List (K × Chan Any) → Outcome (List (K × Chan Any))
  send_keyed key e [] = ok []
  send_keyed key e ((k, c) ∷ m) =
      let rest = send_keyed key e m in
      if same_key k key
      then elim (send e c) [ ok c' ↦ ok ((k, c') ∷ m) | panic f c' ↦ panic f ((k, c') ∷ m) ]
      else elim rest [ ok m' ↦ ok ((k, c) ∷ m') | panic f m' ↦ panic f ((k, c) ∷ m') ]

  -- `for _, keyedFlow := range k.keyedFlows { close(keyedFlow.In()) }`
  pub close_all : List (K × Chan Any) → Outcome (List (K × Chan Any))
  close_all [] = ok []
  close_all ((k, c) ∷ m) = elim (close c) [
    | panic f c' ↦ panic f ((k, c') ∷ m)
    | ok c' ↦ elim (close_all m) [ ok m' ↦ ok ((k, c') ∷ m') | panic f m' ↦ panic f ((k, c') ∷ m') ]
  ]

  on_flows :
      (List (K × Chan Any) → Outcome (List (K × Chan Any))) → Keyed K Any → Outcome (Keyed K Any)
  on_flows op k = elim (op k.keyed_flows) [
    | ok m ↦ ok (record k { keyed_flows = m })
    | panic f m ↦ panic f (record k { keyed_flows = m })
  ]

  -- `stream`, over what `in` delivers, up to the closing of all keyed flows
  unfoldable pub stream :
      {V : Type 0} → (Any → Option V) → (V → K) → List Any → Keyed K Any → Outcome (Keyed K Any)
  unfolding get_keyed_flow send_keyed close_all on_flows
  stream assert key_selector [] k = on_flows close_all k
  stream assert key_selector (e ∷ es) k = expect (assert e) k λ v.
      let key = key_selector v in
      on_flows (send_keyed key e) (get_keyed_flow key k) >>= λ k'. stream assert key_selector es k'

-- `transmit`, over what `out` delivers
unfoldable pub transmit : {R : Type 0} → List R → Chan R → Outcome (Chan R)
unfolding forward
transmit es inlet = forward es inlet
