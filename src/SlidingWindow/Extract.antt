-- ===== src/SlidingWindow/Extract.antt =====
-- What one pass over a sorted queue takes and leaves (flow/sliding_window.go,
-- extractWindowElements).
use go_streams.Prelude.{
  ℕ, ◌+◌, ◌≤◌, ◌<◌, Bool, Option, none, some, List, [], ◌∷◌, ◌≡◌, refl, map, arith, All, keep, leb,
  ltb, ltb→lt, Bool-cases, inl, inr,
}
use go_streams.SlidingWindow.{
  TimedElement, SlidingWindow, remaining_at, queue_loop, slice, extract_window_elements,
}

module _ {T : Type 0} where
  -- In the order of event time.
  abbrev pub IsSorted : List (TimedElement T) → Type 0
  IsSorted [] = Unit
  IsSorted (e ∷ q) = All (λ (f : TimedElement T). e.event_time ≤ f.event_time) q × IsSorted q

  abbrev pub not_after : ℕ → TimedElement T → Bool
  not_after bound e = leb e.event_time bound

  abbrev pub after : ℕ → TimedElement T → Bool
  after bound e = ltb bound e.event_time

  abbrev pub elements_of : List (TimedElement T) → List T
  elements_of = map (λ (e : TimedElement T). e.element)

  keep-not_after :
      (bound low : ℕ) (q : List (TimedElement T))
      → bound < low
      → All (λ (f : TimedElement T). low ≤ f.event_time) q
      → keep (not_after bound) q ≡ []
  keep-not_after bound low [] lt h = refl
  keep-not_after bound low (e ∷ q) lt (le, h) = ground (arith, keep-not_after bound low q lt h)

  keep-after :
      (bound low : ℕ) (q : List (TimedElement T))
      → bound < low
      → All (λ (f : TimedElement T). low ≤ f.event_time) q
      → keep (after bound) q ≡ q
  keep-after bound low [] lt h = refl
  keep-after bound low (e ∷ q) lt (le, h) = ground (arith, keep-after bound low q lt h)

  module _ (upper lower : ℕ) where
    queue_loop-some : (q r : List (TimedElement T)) → (queue_loop upper lower q (some r)).1 ≡ some r
    unfolding queue_loop
    queue_loop-some [] r = refl
    queue_loop-some (e ∷ q) r = ground (arith, queue_loop-some q r)

    queue_loop-elements :
        (q : List (TimedElement T)) (r : Option (List (TimedElement T)))
        → IsSorted q
        → (queue_loop upper lower q r).0 ≡ elements_of (keep (not_after upper) q)
    unfolding queue_loop
    queue_loop-elements [] r s = refl
    queue_loop-elements (e ∷ q) r (first, s) = ground (
      arith,
      queue_loop-elements q (remaining_at lower e q r) s,
      keep-not_after upper e.event_time q,
    )

    queue_loop-remaining :
        (q : List (TimedElement T))
        → IsSorted q
        → lower ≤ upper
        → slice (queue_loop upper lower q none).1 ≡ keep (after lower) q
    unfolding queue_loop
    queue_loop-remaining [] s le = refl
    queue_loop-remaining (e ∷ q) (first, s) le = elim (Bool-cases (ltb lower e.event_time)) [
      | inl new ↦
          ground (
            arith,
            queue_loop-some q (e ∷ q),
            keep-after lower e.event_time q (ltb→lt _ _ new) first,
          )
      | inr old ↦ ground (arith, queue_loop-remaining q s le)
    ]

  -- On a sorted queue, and with a sliding interval not above the window size, one pass takes exactly
  -- the elements up to the upper boundary, in order, leaves exactly those after the new lower
  -- boundary, and moves the lower boundary on by the interval.
  pub extract_window_elements_lem :
      (sw : SlidingWindow T)
      → IsSorted sw.queue
      → sw.sliding_interval ≤ sw.window_size
      → extract_window_elements sw ≡ (
        elements_of (keep (not_after (sw.lower_boundary + sw.window_size)) sw.queue),
        record sw {
          lower_boundary = sw.lower_boundary + sw.sliding_interval;
          queue = keep (after (sw.lower_boundary + sw.sliding_interval)) sw.queue;
        },
      )
  unfolding extract_window_elements
  extract_window_elements_lem sw sorted fits = ground (
    arith,
    queue_loop-elements upper lower sw.queue none sorted,
    queue_loop-remaining upper lower sw.queue sorted (omega arith),
  )
    where
      upper : ℕ
      upper = sw.lower_boundary + sw.window_size

      lower : ℕ
      lower = sw.lower_boundary + sw.sliding_interval
