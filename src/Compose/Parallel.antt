-- ===== src/Compose/Parallel.antt =====
-- A RoundRobin whose flows each go through a Map, and a Merge of what these deliver (flow/util.go,
-- flow/map.go): the way to run whole branches of a pipeline in parallel.
use go_streams.Prelude.{
  ℕ, ◌≤◌, true, Option, none, some, List, [], ◌∷◌, ◌≡◌, refl, arith, map, concat, weigh,
  weigh-append, All, SameBag, ℤ, IsSubsequence, inl, inr, Option-cases,
}
use go_streams.Element.{typed_prefix, all_typed}
use go_streams.Map.{Map, new_map, Stream}
use go_streams.Map.Laws.{map_complete}
use go_streams.Pool.{Pool}
use go_streams.RoundRobin
use go_streams.RoundRobin.{RoundRobin}
use go_streams.RoundRobin.Laws.{received, AllClosed, round_robin_complete}
use go_streams.Merge
use go_streams.Merge.{Merge}
use go_streams.Merge.Laws.{merge_complete}

module _ {Any T : Type 0} (assert : Any → Option T) where
  all_typed-cons :
      (y : Any) (ys : List Any)
      → all_typed assert (y ∷ ys) ≡ true
      → ((t : T) × (assert y ≡ some t)) × (all_typed assert ys ≡ true)
  all_typed-cons y ys typed = elim (Option-cases (assert y)) [
    | inl bad ↦ absurd (ground (arith, typed, bad))
    | inr (t, good) ↦ ((t, good), ground (arith, typed, good))
  ]

  all_typed-subsequence :
      (xs ys : List Any)
      → IsSubsequence xs ys
      → all_typed assert ys ≡ true
      → all_typed assert xs ≡ true
  all_typed-subsequence [] ys h typed = refl
  all_typed-subsequence (x ∷ xs) [] h typed = elim h [ ]
  all_typed-subsequence (x ∷ xs) (y ∷ ys) (inl (e, h)) typed =
      let ((t, good), later) = all_typed-cons y ys typed in
      ground (arith, e, good, all_typed-subsequence xs ys h later)
  all_typed-subsequence (x ∷ xs) (y ∷ ys) (inr h) typed =
      all_typed-subsequence (x ∷ xs) ys h (all_typed-cons y ys typed).1

module _ {Any T R : Type 0} (assert : Any → Option T) where
  -- A Map for each flow that has been run until its output was closed, with the elements of the flows
  -- and what the Maps have sent.
  pub data MapRuns (m : Map T R) : List (List Any) → List (List R) → Type 0 where
    no_run : MapRuns m [] []
    map_run :
        {es : List Any} {flows : List (List Any)} {outs : List (List R)} {k : ℕ} {s : Pool Any R}
        → Stream assert m es k s
        → s.out.closed ≡ true
        → MapRuns m flows outs
        → MapRuns m (es ∷ flows) (s.out.history ∷ outs)

  module _ (f : T → R) where
    -- What an element weighs when its image does.
    abbrev image_weight : (R → ℕ) → Any → ℕ
    image_weight w e = elim (assert e) [ none ↦ 0 | some t ↦ w (f t) ]

    weigh-image :
        (w : R → ℕ) (es : List Any)
        → all_typed assert es ≡ true
        → weigh w (map f (typed_prefix assert es)) ≡ weigh (image_weight w) es
    weigh-image w [] typed = refl
    weigh-image w (e ∷ es) typed = elim (Option-cases (assert e)) [
      | inl bad ↦ ground arith
      | inr (t, good) ↦ ground (arith, weigh-image w es)
    ]

    module _ (n : ℤ) {m : Map T R} (made : new_map f n ≡ some m) where
      weigh-branches :
          (w : R → ℕ) {flows : List (List Any)} {outs : List (List R)}
          → MapRuns m flows outs
          → All (λ es. all_typed assert es ≡ true) flows
          → weigh w (concat outs) ≡ weigh (image_weight w) (concat flows)
      weigh-branches w no_run typed = refl
      weigh-branches w (map_run {es} {flows} {outs} {s} run closed rest) typed = omega (
        arith,
        weigh-append w s.out.history (concat outs),
        weigh-append (image_weight w) es (concat flows),
        (map_complete assert f n made es typed.0 run closed).1 w,
        weigh-image w es typed.0,
        weigh-branches w rest typed.1,
      )

      -- Elements of one type that a RoundRobin over at least one flow has spread, that a Map of each
      -- flow has treated, with any number of workers, and that a Merge has brought together: when each of
      -- them has closed its outputs, after any interleaving of all goroutines, the merged flow has
      -- received the image of every element, as often as one Map would send it.
      pub parallel_map :
          (branches : ℕ) (given : List Any) {r : RoundRobin Any} {outs : List (List R)}
          {t : Merge R}
          → 1 ≤ branches
          → all_typed assert given ≡ true
          → RoundRobin.Reach (RoundRobin.init branches given) r
          → AllClosed r
          → MapRuns m (received r) outs
          → Merge.Reach (Merge.init outs) t
          → t.merged.closed ≡ true
          → SameBag t.merged.history (map f (typed_prefix assert given))
      parallel_map branches given {r} {outs} {t} some_branch typed spread all_closed ran merged
            closed w =
          let (_, _, same, ordered) =
            round_robin_complete branches given some_branch spread all_closed in
          omega (
            arith,
            merge_complete outs merged closed w,
            weigh-branches w ran (all_flows (received r) ordered),
            same (image_weight w),
            weigh-image w given typed,
          )
        where
          all_flows :
              (flows : List (List Any))
              → All (λ l. IsSubsequence l given) flows
              → All (λ es. all_typed assert es ≡ true) flows
          all_flows [] h = tt
          all_flows (l ∷ flows) h =
              (all_typed-subsequence assert l given h.0 typed, all_flows flows h.1)
