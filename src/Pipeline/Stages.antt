-- ===== src/Pipeline/Stages.antt =====
-- Programs that `Via` and `To` build of a source, operators of one goroutine and a sink (flow/fold.go,
-- flow/reduce.go, and flow/map.go, flow/filter.go, flow/flat_map.go with one worker).
use mathlib.Core.Path.{subst}
use go_streams.Prelude.{
  ℕ, ◌≤◌, Bool, true, false, Option, List, [], ◌∷◌, ◌++◌, ◌≡◌, ◌⊎◌, inl, inr, refl, ap, sym, ◌∙◌,
  map, arith, Option-cases,
}
use go_streams.Channel.{Outcome, ok, panic, make_chan, sent, conclude}
use go_streams.Element.{GoType, all_typed}
use go_streams.Fold
use go_streams.Fold.{Fold}
use go_streams.Fold.Laws.{stream-rolling}
use go_streams.Reduce
use go_streams.Reduce.{Reduce, reduce_step, reduce_loop}
use go_streams.Pool.Inv.{produced, all_accepted}
use go_streams.Pipeline.{Operator, Chain, source, Crash, Program, Runs, Run}
use go_streams.Pipeline.Remains.{outputs, remains}
use go_streams.Pipeline.Safe.{accepts, IsSafe}
use go_streams.Pipeline.Operators.{
  stateless, fold_operator, reduce_operator, via_flow, to_sink, remains-via_flow, IsSafe-via_flow,
  remains-to_sink, IsSafe-to_sink,
}
use go_streams.Pipeline.Agree.{
  fold-outputs, accepts-fold_operator, reduce-outputs, boxed_body, outputs-boxed_body,
  accepts-boxed_body,
}
use go_streams.Pipeline.Laws.{program_left, pipeline_complete}

-- An argument of `Via`: a Fold, a Reduce, or a Map, Filter or FlatMap with one worker, which sends
-- what its body makes of an element.
pub data Stage (Any : Type 0) : Type 1 where
  fold : {T R : Type 0} → (Any → Option T) → (R → Any) → Fold T R → Stage Any
  reduce : {T : Type 0} → GoType Any T → Reduce T → Stage Any
  one_worker : {B : Type 0} → (B → Any) → (Any → Option (List B)) → Stage Any

-- A goroutine has returned, and not panicked.
abbrev pub returned : {S : Type 0} → Outcome S → Bool
returned (ok s) = true
returned (panic e s) = false

module _ {Any : Type 0} where
  abbrev pub operator_of : Stage Any → Operator Any
  operator_of (fold assert box m) = fold_operator assert box m
  operator_of (reduce g r) = reduce_operator g r
  operator_of (one_worker box body) = stateless (boxed_body box body)

  abbrev pub state_of : (stage : Stage Any) → (operator_of stage).State
  state_of (fold assert box m) = m.init
  state_of (reduce g r) = g.nil
  state_of (one_worker box body) = tt

  -- `c.Via(stage).Via(stage')…`
  abbrev pub chain_of : List (Stage Any) → Chain Any → Chain Any
  chain_of [] c = c
  chain_of (stage ∷ stages) c = chain_of stages (via_flow c (operator_of stage) (state_of stage))

  -- What the goroutine of a stage sends by itself.
  abbrev pub result : Stage Any → List Any → List Any
  result (fold assert box m) es = map box (sent (Fold.stream assert m es make_chan))
  result (reduce g r) es = sent (Reduce.stream g r es make_chan)
  result (one_worker box body) es = map box (produced body es)

  -- Whether it comes to its end by itself, without a panic.
  abbrev pub returns : Stage Any → List Any → Bool
  returns (fold assert box m) es = returned (Fold.stream assert m es make_chan)
  returns (reduce g r) es = returned (Reduce.stream g r es make_chan)
  returns (one_worker box body) es = all_accepted body es

  -- The stages one after the other, each by itself on what the one before it has sent.
  abbrev pub results : List (Stage Any) → List Any → List Any
  results [] es = es
  results (stage ∷ stages) es = results stages (result stage es)

  abbrev pub AllReturn : List (Stage Any) → List Any → Type 0
  AllReturn [] es = Unit
  AllReturn (stage ∷ stages) es = (returns stage es ≡ true) × AllReturn stages (result stage es)

  reduce_loop-returned :
      {T : Type 0} (g : GoType Any T) (r : Reduce T) (last : Any) (es h : List Any)
      → returned (reduce_loop g r last es (record { history = h; closed = false }))
        ≡ accepts (reduce_operator g r) last es
  unfolding reduce_loop
  reduce_loop-returned g r last [] h = refl
  reduce_loop-returned g r last (e ∷ es) h = elim (Option-cases (reduce_step g r last e)) [
    | inl bad ↦ ground arith
    | inr (next, good) ↦ ground (arith, reduce_loop-returned g r next es (h ++ next ∷ []))
  ]

  stage-outputs :
      (stage : Stage Any) (es : List Any)
      → returns stage es ≡ true
      → (outputs (operator_of stage) (state_of stage) es ≡ result stage es)
        × (accepts (operator_of stage) (state_of stage) es ≡ true)
  unfolding Reduce.stream
  stage-outputs (fold assert box m) es h = (
    fold-outputs assert box m es,
    accepts-fold_operator assert box m m.init es
        ∙ sym (ap returned (stream-rolling assert m es).0 ∙ returned_lem (all_typed assert es) _)
        ∙ h,
  )
    where
      returned_lem : {R : Type 0} (b : Bool) (outs : List R) → returned (conclude b outs) ≡ b
      returned_lem true outs = refl
      returned_lem false outs = refl
  stage-outputs (reduce g r) es h =
      (reduce-outputs g r es, sym (reduce_loop-returned g r g.nil es []) ∙ h)
  stage-outputs (one_worker box body) es h =
      (outputs-boxed_body box body es h, accepts-boxed_body box body es ∙ h)

  -- A chain of stages behind another chain.
  chain_of-results :
      (stages : List (Stage Any)) (c : Chain Any)
      → IsSafe c
      → AllReturn stages (remains c)
      → (remains (chain_of stages c) ≡ results stages (remains c)) × IsSafe (chain_of stages c)
  chain_of-results [] c safe h = (refl, safe)
  chain_of-results (stage ∷ stages) c safe (first, others) =
      let (sent_on, fine) = stage-outputs stage (remains c) first in
      let op = operator_of stage in
      let s = state_of stage in
      let path = remains-via_flow c op s ∙ sent_on in
      let (rest, safe') =
        chain_of-results stages (via_flow c op s) (IsSafe-via_flow c op s safe fine)
          (subst (AllReturn stages) (sym path) others) in
      (rest ∙ ap (results stages) path, safe')

  -- A program of a source, Folds, Reduces and Maps, Filters or FlatMaps with one worker each, joined in
  -- a line by `Via` and `To`, where each goroutine by itself returns on what the one before it sends.
  -- Under every interleaving of all its goroutines: it makes at most a number of steps that is known
  -- from the start; no goroutine panics; what the sink has received is the beginning of what the
  -- goroutines by themselves would send, one after the other; and either the sink is done and has
  -- received all of that, or the program can go on.
  pub stages_complete :
      (stages : List (Stage Any)) (es : List Any) {k : ℕ} {p : Program Any}
      → AllReturn stages es
      → Runs k (to_sink (chain_of stages (source es))) p
      → (k ≤ program_left (to_sink (chain_of stages (source es))))
        × (¬ Crash p.chain)
        × (p.sunk ++ remains p.chain ≡ results stages es)
        × (((p.done ≡ true) × (p.sunk ≡ results stages es)) ⊎ ((q : Program Any) × Run p q))
  stages_complete stages es all run =
      let c = chain_of stages (source es) in
      let (path, safe) = chain_of-results stages (source es) tt all in
      let (bound, no_crash, sum, end) =
        pipeline_complete (to_sink c).chain (IsSafe-to_sink c safe) run in
      (
        bound,
        no_crash,
        sum ∙ remains-to_sink c ∙ path,
        elim end [ inl (d, got) ↦ inl (d, got ∙ remains-to_sink c ∙ path) | inr q ↦ inr q ],
      )
