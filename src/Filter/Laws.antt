-- ===== src/Filter/Laws.antt =====
-- What a Filter delivers (flow/filter.go).
use mathlib.Core.Path.{subst}
use go_streams.Prelude.{
  ℕ, ◌≤◌, Bool, true, false, Option, none, some, List, [], ◌∷◌, ◌≡◌, refl, arith, ℤ, pos, SameBag,
  keep,
}
use go_streams.Element.{all_typed}
use go_streams.Pool.{Pool, Reach}
use go_streams.Pool.Inv.{produced, Reach-Inv}
use go_streams.Pool.Laws.{closed_complete}
use go_streams.Pool.Order.{closed_ordered}
use go_streams.Filter.{Filter, new_filter, filter_body, Stream}

module _ {Any T : Type 0} (assert : Any → Option T) where
  -- An element whose value as a `T` matches.
  abbrev pub passes : (T → Bool) → Any → Bool
  passes p e = elim (assert e) [ none ↦ false | some t ↦ p t ]

  produced-filter_body :
      (m : Filter T) (es : List Any)
      → all_typed assert es ≡ true
      → produced (filter_body assert m) es ≡ keep (passes m.filter_predicate) es
  unfolding filter_body
  produced-filter_body m [] h = refl
  produced-filter_body m (e ∷ es) h = ground (arith, produced-filter_body m es)

filter_one :
    {T : Type 0} (f : T → Bool) {m : Filter T} → new_filter f (pos 1) ≡ some m → m.parallelism ≡ 1
unfolding new_filter
filter_one f made = ground arith

module _ {Any T : Type 0} (assert : Any → Option T) (f : T → Bool) (n : ℤ) {m : Filter T}
    (made : new_filter f n ≡ some m) where
  filter_parallelism : 1 ≤ m.parallelism
  unfolding new_filter
  filter_parallelism = ground arith

  filter_function : m.filter_predicate ≡ f
  unfolding new_filter
  filter_function = ground arith

  -- A Filter that `NewFilter` accepted, on elements that are all of its type: whenever its output is
  -- closed, after any interleaving of its workers, it has read all elements and sent
  -- those that match the predicate, and no other, in some order.
  filter_complete :
      (es : List Any) {k : ℕ} {s : Pool Any Any}
      → all_typed assert es ≡ true
      → Stream assert m es k s
      → s.out.closed ≡ true
      → (s.input ≡ []) × SameBag s.out.history (keep (passes assert f) es)
  filter_complete es typed r closed =
      rw (← filter_function, ← produced-filter_body assert m es typed)
        (closed_complete (Reach-Inv m.parallelism (filter_body assert m) es r) filter_parallelism
          closed)

module _ {Any T : Type 0} (assert : Any → Option T) (f : T → Bool) {m : Filter T}
    (made : new_filter f (pos 1) ≡ some m) where
  -- With a parallelism of 1 and on elements that are all of its type, a closed output holds
  -- those that match the predicate, and no other, in the order of the elements.
  filter_ordered :
      (es : List Any) {k : ℕ} {s : Pool Any Any}
      → all_typed assert es ≡ true
      → Stream assert m es k s
      → s.out.closed ≡ true
      → s.out.history ≡ keep (passes assert f) es
  filter_ordered es {k} {s} typed r closed =
      rw (← filter_function assert f (pos 1) made, ← produced-filter_body assert m es typed)
        (closed_ordered (filter_body assert m) es
          (subst (λ w. Reach w (filter_body assert m) es k s) one_worker r) closed)
    where
      one_worker : m.parallelism ≡ 1
      one_worker = filter_one f made
