-- ===== src/Pool/Laws.antt =====
-- What a worker pool has sent when its output is closed, and that it never panics on its own.
use go_streams.Prelude.{
  ℕ, ◌≤◌, true, Option, List, [], ◌∷◌, ◌++◌, ◌≡◌, refl, ap, arith, weigh, weigh-append, SameBag,
}
use go_streams.Pool.{
  Worker, sending, Main, starting, waiting, finished, Pool, Crash, bad_element, late_send,
  late_close,
}
use go_streams.Pool.Inv.{
  active, active-add-gone, load-eq-zero, produced, all_accepted, IsClosed, Inv,
}

module _ {Any B : Type 0} {parallelism : ℕ} {body : Any → Option (List B)} {given : List Any}
    {s : Pool Any B} (inv : Inv parallelism body given s) where
  open inv use {counted, started, closing, drained, accepted, bag}

  pub closed-finished : s.out.closed ≡ true → (s.main ≡ finished) × (s.wg ≡ 0)
  closed-finished h = by_main s.main refl closing
    where
      by_main :
          (m : Main) → s.main ≡ m → IsClosed m s.wg s.out.closed → (s.main ≡ finished) × (s.wg ≡ 0)
      by_main finished e c = (e, c.0)
      by_main (starting i) e c = cc
      by_main waiting e c = cc

  finished-drained : 1 ≤ parallelism → s.main ≡ finished → s.wg ≡ 0 → s.input ≡ []
  finished-drained some_worker e z = drained (ground (arith, active-add-gone s.workers))

  -- A pool whose output is closed has read all its input and sent all that it had to, in some order.
  pub closed_complete :
      1 ≤ parallelism
      → s.out.closed ≡ true
      → (s.input ≡ []) × SameBag s.out.history (produced body given)
  closed_complete some_worker h = (
    empty,
    λ w. omega (
      arith,
      bag w,
      load-eq-zero w s.workers (omega (arith, counted, end.1)),
      ap (λ l. weigh w (produced body l)) empty,
    ),
  )
    where
      end : (s.main ≡ finished) × (s.wg ≡ 0)
      end = closed-finished h

      empty : s.input ≡ []
      empty = finished-drained some_worker end.0 end.1

  no_late_send :
      (ws ws' : List (Worker B)) (o : B) (os : List B)
      → s.workers ≡ ws ++ (sending (o ∷ os) ∷ ws')
      → s.out.closed ≡ true
      → ⊥
  no_late_send ws ws' o os hw h = absurd (
      omega (
        arith,
        counted,
        (closed-finished h).1,
        ap (weigh active) hw,
        weigh-append active ws (sending (o ∷ os) ∷ ws'),
      ))

  -- No goroutine of a pool panics on elements that pass their assertions.
  pub no-Crash : all_accepted body given ≡ true → ¬ Crash parallelism body s
  no-Crash h (bad_element ws ws' e es hw hi hb) = ground (arith, accepted h)
  no-Crash h (late_send ws ws' o os hw hc) = no_late_send ws ws' o os hw hc
  no-Crash h (late_close hm z hc) = ground (arith, closed-finished hc)
