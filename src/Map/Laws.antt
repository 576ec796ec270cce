-- ===== src/Map/Laws.antt =====
-- What a Map delivers (flow/map.go).
use mathlib.Core.Path.{subst}
use go_streams.Prelude.{
  ℕ, ◌≤◌, true, Option, some, List, [], ◌∷◌, ◌≡◌, refl, map, arith, ℤ, pos, SameBag,
}
use go_streams.Element.{typed_prefix, all_typed}
use go_streams.Pool.{Pool, Reach}
use go_streams.Pool.Inv.{produced, Reach-Inv}
use go_streams.Pool.Laws.{closed_complete}
use go_streams.Pool.Order.{closed_ordered}
use go_streams.Map.{Map, new_map, map_body, Stream}

module _ {Any T R : Type 0} (assert : Any → Option T) where
  pub produced-map_body :
      (m : Map T R) (es : List Any)
      → all_typed assert es ≡ true
      → produced (map_body assert m) es ≡ map m.map_function (typed_prefix assert es)
  unfolding map_body
  produced-map_body m [] h = refl
  produced-map_body m (e ∷ es) h = ground (arith, produced-map_body m es)

map_one : {T R : Type 0} (f : T → R) {m : Map T R} → new_map f (pos 1) ≡ some m → m.parallelism ≡ 1
unfolding new_map
map_one f made = ground arith

module _ {Any T R : Type 0} (assert : Any → Option T) (f : T → R) (n : ℤ) {m : Map T R}
    (made : new_map f n ≡ some m) where
  map_parallelism : 1 ≤ m.parallelism
  unfolding new_map
  map_parallelism = ground arith

  pub map_function : m.map_function ≡ f
  unfolding new_map
  map_function = ground arith

  -- A Map that `NewMap` accepted, on elements that are all of its type: whenever its output is
  -- closed, after any interleaving of its workers, it has read all elements and sent
  -- the image of each under the function, in some order.
  pub map_complete :
      (es : List Any) {k : ℕ} {s : Pool Any R}
      → all_typed assert es ≡ true
      → Stream assert m es k s
      → s.out.closed ≡ true
      → (s.input ≡ []) × SameBag s.out.history (map f (typed_prefix assert es))
  map_complete es typed r closed =
      rw (← map_function, ← produced-map_body assert m es typed)
        (closed_complete (Reach-Inv m.parallelism (map_body assert m) es r) map_parallelism closed)

module _ {Any T R : Type 0} (assert : Any → Option T) (f : T → R) {m : Map T R}
    (made : new_map f (pos 1) ≡ some m) where
  -- With a parallelism of 1 and on elements that are all of its type, a closed output holds
  -- the image of each under the function, in the order of the elements.
  map_ordered :
      (es : List Any) {k : ℕ} {s : Pool Any R}
      → all_typed assert es ≡ true
      → Stream assert m es k s
      → s.out.closed ≡ true
      → s.out.history ≡ map f (typed_prefix assert es)
  map_ordered es {k} {s} typed r closed =
      rw (← map_function assert f (pos 1) made, ← produced-map_body assert m es typed)
        (closed_ordered (map_body assert m) es
          (subst (λ w. Reach w (map_body assert m) es k s) one_worker r) closed)
    where
      one_worker : m.parallelism ≡ 1
      one_worker = map_one f made
