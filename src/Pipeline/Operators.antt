-- ===== src/Pipeline/Operators.antt =====
-- The library's operators of one goroutine as links of a chain, and how `Via` and `To` join them
-- (flow/fold.go, flow/reduce.go, flow/map.go, flow/filter.go, flow/flat_map.go, flow/util.go).
use go_streams.Prelude.{true, Option, none, some, List, [], ◌∷◌, ◌≡◌, refl, ap, ◌∙◌}
use go_streams.Element.{GoType}
use go_streams.Fold.{Fold}
use go_streams.Reduce.{Reduce, reduce_step}
use go_streams.Pipeline.{Operator, ranging, Chain, via, Program, start}
use go_streams.Pipeline.Remains.{outputs, remains}
use go_streams.Pipeline.Safe.{IsSafe, accepts}

-- An operator that keeps nothing: what it sends for an element.
abbrev pub stateless : {Any : Type 0} → (Any → Option (List Any)) → Operator Any
stateless body = record {
  State = Unit;
  react = λ s e. elim (body e) [ none ↦ none | some outs ↦ some (tt, outs) ];
  flush = λ s. [];
}

module _ {Any : Type 0} where
  -- The loop of `DoStream` and of every `transmit`: `inlet.In() <- element`
  abbrev pub forwarder : Operator Any
  forwarder = stateless λ e. some (e ∷ [])

  -- `c.Via(op)`: the forwarding goroutine and that of the operator, at their start
  abbrev pub via_flow : Chain Any → (op : Operator Any) → op.State → Chain Any
  via_flow c op s = via (via c forwarder tt ranging) op s ranging

  -- `c.To(sink)`: the forwarding goroutine before the sink
  abbrev pub to_sink : Chain Any → Program Any
  to_sink c = start (via c forwarder tt ranging)

  -- `stream` of a Fold; `box` is the conversion of its result to `any`.
  abbrev pub fold_operator : {T R : Type 0} → (Any → Option T) → (R → Any) → Fold T R → Operator Any
  fold_operator {R} assert box m = record {
    State = R;
    react = λ last_folded element. elim (assert element) [
      | none ↦ none
      | some t ↦ some (m.fold_function t last_folded, box (m.fold_function t last_folded) ∷ [])
    ];
    flush = λ last_folded. [];
  }

  -- `stream` of a Reduce
  abbrev pub reduce_operator : {T : Type 0} → GoType Any T → Reduce T → Operator Any
  reduce_operator g r = record {
    State = Any;
    react = λ last element. elim (reduce_step g r last element) [
      | none ↦ none
      | some next ↦ some (next, next ∷ [])
    ];
    flush = λ last. [];
  }

  outputs-forwarder : (es : List Any) → outputs forwarder tt es ≡ es
  outputs-forwarder [] = refl
  outputs-forwarder (e ∷ es) = ap (λ l. e ∷ l) (outputs-forwarder es)

  accepts-forwarder : (es : List Any) → accepts forwarder tt es ≡ true
  accepts-forwarder [] = refl
  accepts-forwarder (e ∷ es) = accepts-forwarder es

  -- What an operator behind a `Via` has to deliver is what it makes of the chain behind it.
  pub remains-via_flow :
      (c : Chain Any) (op : Operator Any) (s : op.State)
      → remains (via_flow c op s) ≡ outputs op s (remains c)
  remains-via_flow c op s = ap (outputs op s) (outputs-forwarder (remains c))

  pub IsSafe-via_flow :
      (c : Chain Any) (op : Operator Any) (s : op.State)
      → IsSafe c
      → accepts op s (remains c) ≡ true
      → IsSafe (via_flow c op s)
  IsSafe-via_flow c op s safe h =
      ((safe, accepts-forwarder (remains c)), ap (accepts op s) (outputs-forwarder (remains c)) ∙ h)

  pub remains-to_sink : (c : Chain Any) → remains (to_sink c).chain ≡ remains c
  remains-to_sink c = outputs-forwarder (remains c)

  pub IsSafe-to_sink : (c : Chain Any) → IsSafe c → IsSafe (to_sink c).chain
  IsSafe-to_sink c safe = (safe, accepts-forwarder (remains c))
