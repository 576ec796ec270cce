-- ===== src/Programs/OneMap.antt =====
-- The programs of the shape `source.Via(flow.NewMap(f, 1)).To(sink)`: most of those under examples/.
use go_streams.Prelude.{
  ℕ, true, Option, some, List, [], ◌∷◌, ◌≡◌, ◌⊎◌, inl, inr, refl, ap, ◌∙◌, arith, map, pos,
  Option-cases,
}
use go_streams.Element.{typed_prefix, all_typed}
use go_streams.Map.{Map, new_map, map_body}
use go_streams.Map.Laws.{map_function, produced-map_body}
use go_streams.Pool.Inv.{all_accepted}
use go_streams.Pipeline.{Operator, Crash, Program, Run, Runs, source}
use go_streams.Pipeline.Remains.{remains}
use go_streams.Pipeline.Safe.{IsSafe}
use go_streams.Pipeline.Operators.{
  stateless, via_flow, to_sink, remains-via_flow, IsSafe-via_flow, remains-to_sink, IsSafe-to_sink,
}
use go_streams.Pipeline.Agree.{boxed_body, outputs-boxed_body, accepts-boxed_body}
use go_streams.Pipeline.Laws.{pipeline_complete}

module _ {Any T R : Type 0} (assert : Any → Option T) (box : R → Any) where
  -- The one worker of the Map.
  abbrev pub worker : Map T R → Operator Any
  worker m = stateless (boxed_body box (map_body assert m))

  -- The program, over what its source delivers.
  abbrev pub one_map : Map T R → List Any → Program Any
  one_map m es = to_sink (via_flow (source es) (worker m) tt)

  all_accepted-map_body :
      (m : Map T R) (es : List Any) → all_accepted (map_body assert m) es ≡ all_typed assert es
  unfolding map_body
  all_accepted-map_body m [] = refl
  all_accepted-map_body m (e ∷ es) = elim (Option-cases (assert e)) [
    | inl bad ↦ ground arith
    | inr (t, good) ↦ ground (arith, all_accepted-map_body m es)
  ]

  remains-one_map :
      (f : T → R) {m : Map T R} (es : List Any)
      → new_map f (pos 1) ≡ some m
      → all_typed assert es ≡ true
      → remains (one_map m es).chain ≡ map box (map f (typed_prefix assert es))
  remains-one_map f {m} es made typed =
      remains-to_sink (via_flow (source es) (worker m) tt)
      ∙ remains-via_flow (source es) (worker m) tt
      ∙ outputs-boxed_body box (map_body assert m) es (all_accepted-map_body m es ∙ typed)
      ∙ ap (map box) (
          produced-map_body assert m es typed
          ∙ ap (λ g. map g (typed_prefix assert es)) (map_function assert f (pos 1) made))

  IsSafe-one_map :
      (m : Map T R) (es : List Any) → all_typed assert es ≡ true → IsSafe (one_map m es).chain
  IsSafe-one_map m es typed = IsSafe-to_sink (via_flow (source es) (worker m) tt) (
      IsSafe-via_flow (source es) (worker m) tt tt
        (accepts-boxed_body box (map_body assert m) es ∙ all_accepted-map_body m es ∙ typed))

  -- The program on elements that are all of its function's type, under every interleaving: no
  -- goroutine panics, and either the sink is done and has been given the image of each element, in
  -- order, or the program can go on.
  pub one_map_complete :
      (f : T → R) {m : Map T R} (es : List Any) {k : ℕ} {p : Program Any}
      → new_map f (pos 1) ≡ some m
      → all_typed assert es ≡ true
      → Runs k (one_map m es) p
      → (¬ Crash p.chain)
        × (((p.done ≡ true) × (p.sunk ≡ map box (map f (typed_prefix assert es))))
            ⊎ ((q : Program Any) × Run p q))
  one_map_complete f {m} es made typed run =
      let (_, no_crash, all, result) =
        pipeline_complete (one_map m es).chain (IsSafe-one_map m es typed) run in
      (
        no_crash,
        elim result [
          | inl (d, got) ↦ inl (d, got ∙ remains-one_map f es made typed)
          | inr q ↦ inr q
        ],
      )
