-- ===== src/FlatMap/Laws.antt =====
-- What a FlatMap delivers (flow/flat_map.go).
use mathlib.Core.Path.{subst}
use go_streams.Prelude.{
  ℕ, ◌≤◌, true, Option, some, List, [], ◌∷◌, ◌≡◌, refl, map, arith, ℤ, pos, SameBag, concat,
}
use go_streams.Element.{typed_prefix, all_typed}
use go_streams.Pool.{Pool, Reach}
use go_streams.Pool.Inv.{produced, Reach-Inv}
use go_streams.Pool.Laws.{closed_complete}
use go_streams.Pool.Order.{closed_ordered}
use go_streams.FlatMap.{FlatMap, new_flat_map, flat_map_body, Stream}

module _ {Any T R : Type 0} (assert : Any → Option T) where
  produced-flat_map_body :
      (m : FlatMap T R) (es : List Any)
      → all_typed assert es ≡ true
      → produced (flat_map_body assert m) es
        ≡ concat (map m.flat_map_function (typed_prefix assert es))
  unfolding flat_map_body
  produced-flat_map_body m [] h = refl
  produced-flat_map_body m (e ∷ es) h = ground (arith, produced-flat_map_body m es)

flat_map_one :
    {T R : Type 0} (f : T → List R) {m : FlatMap T R}
    → new_flat_map f (pos 1) ≡ some m
    → m.parallelism ≡ 1
unfolding new_flat_map
flat_map_one f made = ground arith

module _ {Any T R : Type 0} (assert : Any → Option T) (f : T → List R) (n : ℤ) {m : FlatMap T R}
    (made : new_flat_map f n ≡ some m) where
  flat_map_parallelism : 1 ≤ m.parallelism
  unfolding new_flat_map
  flat_map_parallelism = ground arith

  flat_map_function : m.flat_map_function ≡ f
  unfolding new_flat_map
  flat_map_function = ground arith

  -- A FlatMap that `NewFlatMap` accepted, on elements that are all of its type: whenever its output is
  -- closed, after any interleaving of its workers, it has read all elements and sent
  -- the items that the function returns for each, in some order.
  flat_map_complete :
      (es : List Any) {k : ℕ} {s : Pool Any R}
      → all_typed assert es ≡ true
      → Stream assert m es k s
      → s.out.closed ≡ true
      → (s.input ≡ []) × SameBag s.out.history (concat (map f (typed_prefix assert es)))
  flat_map_complete es typed r closed =
      rw (← flat_map_function, ← produced-flat_map_body assert m es typed)
        (closed_complete (Reach-Inv m.parallelism (flat_map_body assert m) es r)
          flat_map_parallelism closed)

module _ {Any T R : Type 0} (assert : Any → Option T) (f : T → List R) {m : FlatMap T R}
    (made : new_flat_map f (pos 1) ≡ some m) where
  -- With a parallelism of 1 and on elements that are all of its type, a closed output holds
  -- the items that the function returns for each, in the order of the elements.
  pub flat_map_ordered :
      (es : List Any) {k : ℕ} {s : Pool Any R}
      → all_typed assert es ≡ true
      → Stream assert m es k s
      → s.out.closed ≡ true
      → s.out.history ≡ concat (map f (typed_prefix assert es))
  flat_map_ordered es {k} {s} typed r closed =
      rw (← flat_map_function assert f (pos 1) made, ← produced-flat_map_body assert m es typed)
        (closed_ordered (flat_map_body assert m) es
          (subst (λ w. Reach w (flat_map_body assert m) es k s) one_worker r) closed)
    where
      one_worker : m.parallelism ≡ 1
      one_worker = flat_map_one f made
