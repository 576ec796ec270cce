-- ===== src/Keyed/Laws.antt =====
-- How a Keyed flow spreads its elements (flow/keyed.go).
use mathlib.Core.Path.{subst}
use mathlib.Core.Option.{some-injective}
use go_streams.Prelude.{
  suc, Bool, true, false, Option, none, some, List, [], ◌∷◌, ◌++◌, ◌≡◌, ◌↔◌, refl, sym, ◌∙◌, ap,
  arith, length, keep, append-nil, append_assoc, inl, inr, Option-cases, if◌then◌else◌,
}
use go_streams.Channel.{Chan, ok, make_chan}
use go_streams.Element.{all_typed}
use go_streams.Keyed.{Keyed, new_keyed, find_flow, get_keyed_flow, send_keyed, on_flows, stream}
use go_streams.Keyed.Distinct.{IsDistinct, added-IsDistinct, closed_flows-IsDistinct}
use go_streams.Keyed.Flows.{
  AllOpen, closed_flows, flow_of, added, send_keyed-open, close_all-open, find_flow-added,
  find_flow-closed_flows,
}

module _ {K Any : Type 0} (same_key : K → K → Bool)
    (same_key_iff : (a b : K) → (same_key a b ≡ true) ↔ (a ≡ b)) where
  module _ {V : Type 0} (assert : Any → Option V) (key_selector : V → K) where
    -- The element has this key.
    abbrev pub has_key : K → Any → Bool
    has_key key e = elim (assert e) [ none ↦ false | some v ↦ same_key (key_selector v) key ]

    keep-snoc :
        (p : Any → Bool) (es : List Any) (e : Any)
        → keep p (es ++ (e ∷ [])) ≡ (if p e then keep p es ++ (e ∷ []) else keep p es)
    keep-snoc p [] e = refl
    keep-snoc p (x ∷ es) e = ground (arith, keep-snoc p es e)

    -- After the elements `seen` every key has the flow of its elements.
    record Routed (seen : List Any) (k : Keyed K Any) : Type 0 where
      opened : AllOpen k.keyed_flows
      distinct : IsDistinct same_key same_key_iff k.keyed_flows
      built : k.workflows ≡ length k.keyed_flows
      routed :
          (key : K) → find_flow same_key key k.keyed_flows ≡ flow_of false (keep (has_key key) seen)

    new_keyed-Routed :
        {Operator : Type 0} (operators : List Operator) {k : Keyed K Any}
        → new_keyed operators ≡ some k
        → Routed [] k
    unfolding new_keyed find_flow
    new_keyed-Routed [] made = cc
    new_keyed-Routed (op ∷ ops) made =
        subst (Routed []) (some-injective _ _ made)
          (record { opened = tt; distinct = tt; built = refl; routed = λ key. refl })

    length-added :
        (key : K) (e : Any) (m : List (K × Chan Any))
        → length (added same_key same_key_iff key e m) ≡ length m
    length-added key e [] = refl
    length-added key e ((k, c) ∷ m) = ground (arith, length-added key e m)

    -- What `getKeyedFlow` leaves for a key: a flow with the elements of the key so far, and the flows
    -- of the other keys as they were.
    record Got (seen : List Any) (key : K) (k : Keyed K Any) : Type 0 where
      opened : AllOpen k.keyed_flows
      distinct : IsDistinct same_key same_key_iff k.keyed_flows
      built : k.workflows ≡ length k.keyed_flows
      flow : Chan Any
      found : find_flow same_key key k.keyed_flows ≡ some flow
      received : flow.history ≡ keep (has_key key) seen
      others :
          (key' : K)
          → same_key key key' ≡ false
          → find_flow same_key key' k.keyed_flows ≡ flow_of false (keep (has_key key') seen)

    flow_of-history : (es : List Any) {c : Chan Any} → flow_of false es ≡ some c → c.history ≡ es
    flow_of-history [] h = cc
    flow_of-history (e ∷ es) h = ground arith

    flow_of-none : (es : List Any) → flow_of false es ≡ none → es ≡ []
    flow_of-none [] h = refl
    flow_of-none (e ∷ es) h = cc

    get_keyed_flow-Got :
        (seen : List Any) (key : K) (k : Keyed K Any)
        → Routed seen k
        → Got seen key (get_keyed_flow same_key key k)
    unfolding get_keyed_flow find_flow
    get_keyed_flow-Got seen key k inv = elim (Option-cases (find_flow same_key key k.keyed_flows)) [
      | inl missing ↦
          rw (missing, get_keyed_flow)
            (record {
              opened = (refl, inv.opened);
              distinct = (missing, inv.distinct);
              built = omega (arith, inv.built);
              flow = make_chan;
              found = ground (arith, same_key_iff key key);
              received = sym (flow_of-none _ (sym (inv.routed key) ∙ missing));
              others = λ key' ne. ground (arith, inv.routed key', ne);
            })
      | inr (c, found) ↦
          rw (found, get_keyed_flow)
            (record {
              opened = inv.opened;
              distinct = inv.distinct;
              built = inv.built;
              flow = c;
              found = found;
              received = flow_of-history _ (sym (inv.routed key) ∙ found);
              others = λ key' ne. inv.routed key';
            })
    ]

    flow_of-append :
        (es : List Any) (e : Any)
        → flow_of false (es ++ (e ∷ []))
          ≡ some (record { history = es ++ (e ∷ []); closed = false })
    flow_of-append [] e = refl
    flow_of-append (x ∷ es) e = refl

    -- The state after the send.
    send-Routed :
        (seen : List Any) (k : Keyed K Any) (e : Any) (v : V)
        → assert e ≡ some v
        → Got seen (key_selector v) k
        → (k' : Keyed K Any) × (on_flows same_key (send_keyed same_key (key_selector v) e) k
            ≡ ok k')
          × Routed (seen ++ (e ∷ [])) k'
    unfolding on_flows
    send-Routed seen k e v good got =
        let key = key_selector v in
        let (e_ok, e_open) = send_keyed-open same_key same_key_iff key e k.keyed_flows got.opened in
        (
          record k { keyed_flows = added same_key same_key_iff key e k.keyed_flows },
          rw (e_ok, on_flows),
          record {
            opened = e_open;
            distinct = added-IsDistinct same_key same_key_iff key e k.keyed_flows got.distinct;
            built = got.built ∙ sym (length-added key e k.keyed_flows);
            routed = λ key'.
                find_flow-added same_key same_key_iff key key' e k.keyed_flows got.found
                ∙ by_key key' (same_key key key') refl;
          },
        )
      where
        by_key :
            (key' : K) (b : Bool)
            → same_key (key_selector v) key' ≡ b
            → (if same_key (key_selector v) key'
                then some (record { history = got.flow.history ++ (e ∷ []); closed = false })
                else find_flow same_key key' k.keyed_flows)
              ≡ flow_of false (keep (has_key key') (seen ++ (e ∷ [])))
        by_key key' true h = ground (
          arith,
          got.received,
          ap (λ x. keep (has_key x) seen) ((same_key_iff (key_selector v) key').0 h),
          keep-snoc (has_key key') seen e,
          flow_of-append (keep (has_key key') seen) e,
        )
        by_key key' false h = ground (arith, got.others key' h, keep-snoc (has_key key') seen e)

    stream-Routed :
        (es seen : List Any) (k : Keyed K Any)
        → all_typed assert es ≡ true
        → Routed seen k
        → (k' : Keyed K Any) × (stream same_key assert key_selector es k ≡ ok k')
          × (k'.workflows ≡ length k'.keyed_flows)
          × IsDistinct same_key same_key_iff k'.keyed_flows
          × ((key : K)
              → find_flow same_key key k'.keyed_flows
                ≡ flow_of true (keep (has_key key) (seen ++ es)))
    unfolding stream
    stream-Routed [] seen k typed inv = (
      record k { keyed_flows = closed_flows k.keyed_flows },
      ground (arith, close_all-open same_key same_key_iff k.keyed_flows inv.opened),
      inv.built ∙ sym (length-closed_flows k.keyed_flows),
      closed_flows-IsDistinct same_key same_key_iff k.keyed_flows inv.distinct,
      λ key.
          find_flow-closed_flows same_key same_key_iff key k.keyed_flows _
            (rw append-nil (inv.routed key)),
    )
      where
        length-closed_flows : (m : List (K × Chan Any)) → length (closed_flows m) ≡ length m
        length-closed_flows [] = refl
        length-closed_flows ((k, c) ∷ m) = ap suc (length-closed_flows m)
    stream-Routed (e ∷ es) seen k typed inv = elim (Option-cases (assert e)) [
      | inl bad ↦ ground arith
      | inr (v, good) ↦
          let got = get_keyed_flow-Got seen (key_selector v) k inv in
          let (k', sent, inv') = send-Routed seen _ e v good got in
          let (k'', ran, built, distinct, routed) =
            stream-Routed es (seen ++ (e ∷ [])) k' (ground arith) inv' in
          (k'', rw good (rw sent ran), built, distinct, λ key. rw append_assoc at (routed key))
    ]

  -- On elements that are all of its type, a Keyed flow that `NewKeyed` made runs to the end without a
  -- panic: no key is stored twice; each key of an element has a flow, which has received exactly the
  -- elements of that key, in their order, and is closed; no other key has one; and as many workflows
  -- were built as keys are stored. It needs the keys' equality test to decide equality.
  pub keyed_lem :
      {V Operator : Type 0} (assert : Any → Option V) (key_selector : V → K)
      (operators : List Operator) (es : List Any) {k : Keyed K Any}
      → new_keyed operators ≡ some k
      → all_typed assert es ≡ true
      → (k' : Keyed K Any) × (stream same_key assert key_selector es k ≡ ok k')
        × (k'.workflows ≡ length k'.keyed_flows)
        × IsDistinct same_key same_key_iff k'.keyed_flows
        × ((key : K)
            → find_flow same_key key k'.keyed_flows
              ≡ flow_of true (keep (has_key assert key_selector key) es))
  keyed_lem assert key_selector operators es made typed =
      stream-Routed assert key_selector es [] _ typed
        (new_keyed-Routed assert key_selector operators made)
