-- ===== src/Keyed/Collect.antt =====
-- What a Keyed flow sends to its output when its operators treat each element by itself
-- (flow/keyed.go). The goroutines that collect the results are those of Merge.
use mathlib.Core.Path.{subst}
use go_streams.Prelude.{
  ℕ, ◌+◌, Bool, true, Option, some, List, [], ◌∷◌, ◌≡◌, ◌↔◌, refl, sym, ◌∙◌, ap, arith, map, weigh,
  weigh-append, concat, SameBag, inl, inr, Option-cases,
}
use go_streams.Channel.{Chan, ok, make_chan}
use go_streams.Keyed.{Keyed, new_keyed, find_flow, get_keyed_flow, on_flows, stream}
use go_streams.Keyed.Flows.{AllOpen, closed_flows, added, send_keyed-open, close_all-open}
use go_streams.Merge.{Merge, init, Reach}
use go_streams.Merge.Laws.{merge_complete}

-- What the workflows deliver, in the order of the map: `work` is what the operators of a key, one
-- after the other, make of the elements of that key.
abbrev pub results : {K Any R : Type 0} → (List Any → List R) → List (K × Chan Any) → List (List R)
results work [] = []
results work ((k, c) ∷ m) = work c.history ∷ results work m

module _ {K Any : Type 0} (same_key : K → K → Bool)
    (same_key_iff : (a b : K) → (same_key a b ≡ true) ↔ (a ≡ b)) where
  module _ (w : Any → ℕ) where
    -- The weight of all elements in the flows.
    abbrev load : List (K × Chan Any) → ℕ
    load [] = 0
    load ((k, c) ∷ m) = weigh w c.history + load m

    load-closed_flows : (m : List (K × Chan Any)) → load (closed_flows m) ≡ load m
    load-closed_flows [] = refl
    load-closed_flows ((k, c) ∷ m) = omega (arith, load-closed_flows m)

    load-added :
        (key : K) (e : Any) (m : List (K × Chan Any)) {c : Chan Any}
        → find_flow same_key key m ≡ some c
        → load (added same_key same_key_iff key e m) ≡ load m + w e
    unfolding find_flow
    load-added key e [] h = cc h
    load-added key e ((k, d) ∷ m) {c} h =
        ground (arith, weigh-append w d.history (e ∷ []), load-added key e m {c = c})

    -- The flow of a key is there, and is empty if it is new.
    get_keyed_flow-load :
        (key : K) (k : Keyed K Any)
        → AllOpen k.keyed_flows
        → (c : Chan Any) × (find_flow same_key key (get_keyed_flow same_key key k).keyed_flows
            ≡ some c)
          × AllOpen (get_keyed_flow same_key key k).keyed_flows
          × (load (get_keyed_flow same_key key k).keyed_flows ≡ load k.keyed_flows)
    unfolding get_keyed_flow find_flow
    get_keyed_flow-load key k o = elim (Option-cases (find_flow same_key key k.keyed_flows)) [
      | inl missing ↦
          rw (missing, get_keyed_flow)
            (make_chan, ground (arith, same_key_iff key key), (refl, o), omega arith)
      | inr (c, found) ↦ rw (found, get_keyed_flow) (c, found, o, refl)
    ]

    stream-load :
        {V : Type 0} (assert : Any → Option V) (key_selector : V → K) (es : List Any)
        (k : Keyed K Any) {k' : Keyed K Any}
        → AllOpen k.keyed_flows
        → stream same_key assert key_selector es k ≡ ok k'
        → load k'.keyed_flows ≡ load k.keyed_flows + weigh w es
    unfolding stream on_flows
    stream-load assert key_selector [] k {k'} o ran = ground (
      arith,
      ran,
      close_all-open same_key same_key_iff k.keyed_flows o,
      load-closed_flows k.keyed_flows,
    )
    stream-load assert key_selector (e ∷ es) k {k'} o ran = elim (Option-cases (assert e)) [
      | inl bad ↦ ground (arith, ran, bad)
      | inr (v, good) ↦
          let key = key_selector v in
          let (c, found, o', same) = get_keyed_flow-load key k o in
          let got = get_keyed_flow same_key key k in
          let (sent, o'') = send_keyed-open same_key same_key_iff key e got.keyed_flows o' in
          let step : stream same_key assert key_selector (e ∷ es) k
              ≡ stream same_key assert key_selector es
                  (record got { keyed_flows = added same_key same_key_iff key e got.keyed_flows }) =
            rw (good, stream) (rw (sent, on_flows) refl) in
          let later =
            stream-load assert key_selector es
              (record got { keyed_flows = added same_key same_key_iff key e got.keyed_flows }) o''
              (sym step ∙ ran) in
          omega (arith, later, same, load-added key e got.keyed_flows found)
    ]

  module _ {R : Type 0} (f : Any → List R) (work : List Any → List R)
      (elementwise : (es : List Any) → SameBag (work es) (concat (map f es))) where
    weigh-concat-map :
        (w : R → ℕ) (es : List Any) → weigh w (concat (map f es)) ≡ weigh (λ e. weigh w (f e)) es
    weigh-concat-map w [] = refl
    weigh-concat-map w (e ∷ es) =
        omega (arith, weigh-append w (f e) (concat (map f es)), weigh-concat-map w es)

    weigh-results :
        (w : R → ℕ) (m : List (K × Chan Any))
        → weigh w (concat (results work m)) ≡ load (λ e. weigh w (f e)) m
    weigh-results w [] = refl
    weigh-results w ((k, c) ∷ m) = omega (
      arith,
      weigh-append w (work c.history) (concat (results work m)),
      weigh-results w m,
      elementwise c.history w,
      weigh-concat-map w c.history,
    )

    -- Where the operators of a Keyed flow treat each element by itself, giving its items in some order,
    -- the keys make no difference: when the elements have been spread without a panic and the output has
    -- been closed, after any interleaving of the collecting goroutines, it has received the items of all
    -- elements, in some order, as it would without keys.
    pub keyed_elementwise :
        {V Operator : Type 0} (assert : Any → Option V) (key_selector : V → K)
        (operators : List Operator) (es : List Any) {k k' : Keyed K Any} {s : Merge R}
        → new_keyed operators ≡ some k
        → stream same_key assert key_selector es k ≡ ok k'
        → Reach (init (results work k'.keyed_flows)) s
        → s.merged.closed ≡ true
        → SameBag s.merged.history (concat (map f es))
    unfolding new_keyed
    keyed_elementwise assert key_selector operators es {k} {k'} made ran run closed w =
        let total =
          stream-load (λ e. weigh w (f e)) assert key_selector es k
            (subst (λ m. AllOpen m) (sym (starts_empty operators made)) tt) ran in
        omega (
          arith,
          merge_complete (results work k'.keyed_flows) run closed w,
          weigh-results w k'.keyed_flows,
          total,
          ap (load (λ e. weigh w (f e))) (starts_empty operators made),
          weigh-concat-map w es,
        )
      where
        starts_empty :
            {Operator : Type 0} (operators : List Operator)
            → new_keyed operators ≡ some k
            → k.keyed_flows ≡ []
        starts_empty [] h = cc h
        starts_empty (op ∷ ops) h = ground (arith, h)
