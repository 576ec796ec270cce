-- ===== src/Pipeline/Typed/Links.antt =====
-- The types of the operators of one goroutine (flow/fold.go, flow/reduce.go, flow/map.go, flow/filter.go,
-- flow/flat_map.go) and of the loops between them.
use go_streams.Prelude.{
  true, Option, some, List, [], ◌∷◌, ◌≡◌, refl, arith, map, All, Bool-cases, inl, inr, ◌⊎◌,
}
use go_streams.Element.{GoType}
use go_streams.Fold.{Fold}
use go_streams.Reduce.{Reduce}
use go_streams.Reduce.Laws.{IsPresent, reduce_step-typed}
use go_streams.Map.{Map, map_body}
use go_streams.Filter.{Filter, filter_body}
use go_streams.FlatMap.{FlatMap, flat_map_body}
use go_streams.Pipeline.Operators.{stateless, forwarder, fold_operator, reduce_operator}
use go_streams.Pipeline.Agree.{boxed_body}
use go_streams.Pipeline.Typed.{HasType}

module _ {Any : Type 0} where
  -- The elements that pass an assertion, and those that are made by a conversion.
  abbrev pub IsOf : {T : Type 0} → (Any → Option T) → Any → Type 0
  IsOf {T} assert e = (t : T) × (assert e ≡ some t)

  abbrev pub IsBoxed : {R : Type 0} → (R → Any) → Any → Type 0
  IsBoxed {R} box e = (r : R) × (e ≡ box r)

  abbrev pub forwarder_type : (P : Any → Type 0) → HasType P P forwarder
  forwarder_type P = record {
    Good = λ s. Unit;
    react_type = λ s e good typed. (tt, e ∷ [], refl, tt, (typed, tt));
    flush_type = λ s good. tt;
  }

  -- A worker's body that makes elements of type `Out` from those of type `In`.
  abbrev pub stateless_type :
      {In Out : Any → Type 0} {body : Any → Option (List Any)}
      → ((e : Any) → In e → (outs : List Any) × (body e ≡ some outs) × All Out outs)
      → HasType In Out (stateless body)
  stateless_type {body} makes = record {
    Good = λ s. Unit;
    react_type = λ s e good typed.
        let (outs, made, all) = makes e typed in (tt, outs, ground (arith, made), tt, all);
    flush_type = λ s good. tt;
  }

  abbrev pub fold_type :
      {T R : Type 0} (assert : Any → Option T) (box : R → Any) (m : Fold T R)
      → HasType (IsOf assert) (IsBoxed box) (fold_operator assert box m)
  fold_type assert box m = record {
    Good = λ r. Unit;
    react_type = λ r e good typed.
        let r' = m.fold_function typed.0 r in
        (r', box r' ∷ [], ground (arith, typed.1), tt, ((r', refl), tt));
    flush_type = λ r good. tt;
  }

  module _ {T : Type 0} (g : GoType Any T) (r : Reduce T)
      (present : (l t : T) → IsPresent g r (r.reduce_function l t)) where
    abbrev pub reduce_type : HasType (IsOf g.assert) (IsOf g.assert) (reduce_operator g r)
    reduce_type = record {
      Good = λ last. (g.is_nil last ≡ true) ⊎ IsOf g.assert last;
      react_type = λ last e good typed.
          let (next, step, made) = reduce_step-typed g r present last e good typed in
          (next, next ∷ [], ground (arith, step), inr made, (made, tt));
      flush_type = λ last good. tt;
    }

  module _ {T R : Type 0} (assert : Any → Option T) (box : R → Any) where
    pub map_makes :
        (m : Map T R) (e : Any)
        → IsOf assert e
        → (outs : List Any) × (boxed_body box (map_body assert m) e ≡ some outs)
          × All (IsBoxed box) outs
    unfolding map_body
    map_makes m e (t, typed) =
        (box (m.map_function t) ∷ [], ground (arith, typed), ((m.map_function t, refl), tt))

    abbrev pub map_type :
        (m : Map T R)
        → HasType (IsOf assert) (IsBoxed box) (stateless (boxed_body box (map_body assert m)))
    map_type m = stateless_type (map_makes m)

    All-boxed : (rs : List R) → All (IsBoxed box) (map box rs)
    All-boxed [] = tt
    All-boxed (r ∷ rs) = ((r, refl), All-boxed rs)

    pub flat_map_makes :
        (m : FlatMap T R) (e : Any)
        → IsOf assert e
        → (outs : List Any) × (boxed_body box (flat_map_body assert m) e ≡ some outs)
          × All (IsBoxed box) outs
    unfolding flat_map_body
    flat_map_makes m e (t, typed) =
        (map box (m.flat_map_function t), ground (arith, typed), All-boxed (m.flat_map_function t))

    abbrev pub flat_map_type :
        (m : FlatMap T R)
        → HasType (IsOf assert) (IsBoxed box) (stateless (boxed_body box (flat_map_body assert m)))
    flat_map_type m = stateless_type (flat_map_makes m)

  module _ {T : Type 0} (assert : Any → Option T) (P : Any → Type 0) where
    -- A Filter keeps the type of its elements, whatever more it says than its own assertion.
    pub filter_makes :
        (f : Filter T) (e : Any)
        → IsOf assert e × P e
        → (outs : List Any) × (filter_body assert f e ≡ some outs) × All P outs
    unfolding filter_body
    filter_makes f e ((t, typed), p) = elim (Bool-cases (f.filter_predicate t)) [
      | inl kept ↦ (e ∷ [], ground (arith, typed, kept), (p, tt))
      | inr left_out ↦ ([], ground (arith, typed, left_out), tt)
    ]

    abbrev pub filter_type :
        (f : Filter T) → HasType (λ e. IsOf assert e × P e) P (stateless (filter_body assert f))
    filter_type f = stateless_type (filter_makes f)
