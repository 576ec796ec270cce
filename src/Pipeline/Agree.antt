-- ===== src/Pipeline/Agree.antt =====
-- The operators as links of a chain send what their goroutines send by themselves (flow/fold.go,
-- flow/reduce.go and the one worker of flow/map.go, flow/filter.go, flow/flat_map.go).
use go_streams.Prelude.{
  ℕ, true, false, Option, none, some, List, [], ◌∷◌, ◌++◌, ◌≡◌, refl, ap, sym, ◌∙◌, map, arith,
  append-nil, append_assoc, inl, inr, Option-cases,
}
use go_streams.Channel.{make_chan, sent, sent-conclude}
use go_streams.Element.{GoType, typed_prefix, all_typed}
use go_streams.Fold
use go_streams.Fold.{Fold}
use go_streams.Fold.Laws.{rolling, stream-rolling}
use go_streams.Reduce
use go_streams.Reduce.{Reduce, reduce_step, reduce_loop}
use go_streams.Pool.{Pool, Reach}
use go_streams.Pool.Inv.{produced, all_accepted}
use go_streams.Pool.Order.{closed_ordered}
use go_streams.Pipeline.Remains.{outputs}
use go_streams.Pipeline.Safe.{accepts}
use go_streams.Pipeline.Operators.{stateless, fold_operator, reduce_operator}

module _ {Any T R : Type 0} (assert : Any → Option T) (box : R → Any) (m : Fold T R) where
  open m use {init, fold_function}

  pub outputs-fold_operator :
      (r : R) (es : List Any)
      → outputs (fold_operator assert box m) r es
        ≡ map box (rolling fold_function r (typed_prefix assert es))
  outputs-fold_operator r [] = refl
  outputs-fold_operator r (e ∷ es) = elim (Option-cases (assert e)) [
    | inl bad ↦ ground arith
    | inr (t, good) ↦ ground (arith, outputs-fold_operator (fold_function t r) es)
  ]

  pub accepts-fold_operator :
      (r : R) (es : List Any) → accepts (fold_operator assert box m) r es ≡ all_typed assert es
  accepts-fold_operator r [] = refl
  accepts-fold_operator r (e ∷ es) = elim (Option-cases (assert e)) [
    | inl bad ↦ ground arith
    | inr (t, good) ↦ ground (arith, accepts-fold_operator (fold_function t r) es)
  ]

  -- A Fold sends the same in a chain as its goroutine by itself, whatever its elements are.
  pub fold-outputs :
      (es : List Any)
      → outputs (fold_operator assert box m) init es
        ≡ map box (sent (Fold.stream assert m es make_chan))
  fold-outputs es =
      rw ((stream-rolling assert m es).0, sent-conclude) (outputs-fold_operator init es)

module _ {Any T : Type 0} (g : GoType Any T) (r : Reduce T) where
  reduce_loop-outputs :
      (last : Any) (es h : List Any)
      → sent (reduce_loop g r last es (record { history = h; closed = false }))
        ≡ h ++ outputs (reduce_operator g r) last es
  unfolding reduce_loop
  reduce_loop-outputs last [] h = rw append-nil
  reduce_loop-outputs last (e ∷ es) h = elim (Option-cases (reduce_step g r last e)) [
    | inl bad ↦ ground (arith, append-nil h)
    | inr (next, good) ↦ ground (
      arith,
      reduce_loop-outputs next es (h ++ next ∷ []),
      append_assoc h (next ∷ []) (outputs (reduce_operator g r) next es),
    )
  ]

  -- A Reduce sends the same in a chain as its goroutine by itself, whatever its elements are.
  pub reduce-outputs :
      (es : List Any)
      → outputs (reduce_operator g r) g.nil es ≡ sent (Reduce.stream g r es make_chan)
  unfolding Reduce.stream
  reduce-outputs es = sym (reduce_loop-outputs g.nil es [])

module _ {Any B : Type 0} (box : B → Any) (body : Any → Option (List B)) where
  -- What a worker sends, converted to `any`.
  abbrev pub boxed_body : Any → Option (List Any)
  boxed_body e = elim (body e) [ none ↦ none | some outs ↦ some (map box outs) ]

  map-append : (xs ys : List B) → map box (xs ++ ys) ≡ map box xs ++ map box ys
  map-append [] ys = refl
  map-append (x ∷ xs) ys = ap (λ l. box x ∷ l) (map-append xs ys)

  pub outputs-boxed_body :
      (es : List Any)
      → all_accepted body es ≡ true
      → outputs (stateless boxed_body) tt es ≡ map box (produced body es)
  outputs-boxed_body [] h = refl
  outputs-boxed_body (e ∷ es) h = elim (Option-cases (body e)) [
    | inl bad ↦ ground arith
    | inr (outs, good) ↦
        ground (arith, h, outputs-boxed_body es, map-append outs (produced body es))
  ]

  pub accepts-boxed_body :
      (es : List Any) → accepts (stateless boxed_body) tt es ≡ all_accepted body es
  accepts-boxed_body [] = refl
  accepts-boxed_body (e ∷ es) = elim (Option-cases (body e)) [
    | inl bad ↦ ground arith
    | inr (outs, good) ↦ ground (arith, accepts-boxed_body es)
  ]

  -- A pool of one worker, on elements that it accepts, sends in every run to its end what the
  -- operator sends in a chain, in the same order.
  pool-outputs :
      (es : List Any) {k : ℕ} {s : Pool Any B}
      → all_accepted body es ≡ true
      → Reach 1 body es k s
      → s.out.closed ≡ true
      → map box s.out.history ≡ outputs (stateless boxed_body) tt es
  pool-outputs es h run closed =
      ap (map box) (closed_ordered body es run closed) ∙ sym (outputs-boxed_body es h)
