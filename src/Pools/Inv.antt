-- ===== src/Pools/Inv.antt =====
-- What holds of a chain of pools between two steps (flow/map.go, flow/filter.go, flow/flat_map.go).
use mathlib.Core.Path.{subst}
use go_streams.Prelude.{
  ℕ, ◌≤◌, Bool, true, false, Option, List, [], ◌∷◌, ◌++◌, ◌≡◌, refl, arith, weigh, All, All-at,
  All-map, All-replace, length, length_swap,
}
use go_streams.Pool.{Worker, receiving, sending, exited}
use go_streams.Pools.{
  Chain, source, spent, pool, Gives, source_gives, worker_gives, is_closed, HasExited, Step,
  close_source, inner, receive, again, exit, close_out,
}
use go_streams.Pools.Load.{load, pending, image}

module _ {Any : Type 0} where
  -- A worker has exited only if its input is closed.
  abbrev pub Leaves : Chain Any → Worker Any → Type 0
  Leaves up x = HasExited x → is_closed up ≡ true

  -- An output is closed only when all workers of its pool have exited.
  abbrev pub Inv : Chain Any → Type 0
  Inv (source es) = Unit
  Inv spent = Unit
  Inv (pool up body workers closed) =
      Inv up
      × (closed ≡ true → All HasExited workers)
      × All (Leaves up) workers
      × (1 ≤ length workers)

  -- A worker that has not exited makes a step.
  replaced-Inv :
      (up up' : Chain Any) (body : Any → Option (List Any)) {workers : List (Worker Any)}
      {closed : Bool} (ws ws' : List (Worker Any)) (a b : Worker Any)
      → Inv (pool up body workers closed)
      → workers ≡ ws ++ (a ∷ ws')
      → ¬ HasExited a
      → Inv up'
      → (is_closed up ≡ true → is_closed up' ≡ true)
      → Leaves up' b
      → Inv (pool up' body (ws ++ (b ∷ ws')) closed)
  replaced-Inv up up' body {workers} ws ws' a b (below, closing, leaves, some_worker) h active
        below' stays mine =
      (
        below',
        λ x. absurd (active (All-at HasExited ws ws' a (subst (All HasExited) h (closing x)))),
        All-replace (Leaves up) (Leaves up') ws ws' a b (λ x k gone. stays (k gone))
            (subst (All (Leaves up)) h leaves) mine,
        omega (arith, length_swap workers ws ws' a b h),
      )

  Gives-open : {c c' : Chain Any} {e : Any} → Gives c e c' → is_closed c ≡ false
  Gives-open source_gives = refl
  Gives-open (worker_gives ws ws' e es h) = refl

  pub Gives-Inv : {c c' : Chain Any} {e : Any} → Gives c e c' → Inv c → Inv c'
  Gives-Inv source_gives inv = tt
  Gives-Inv (worker_gives {up} {body} ws ws' e es h) inv =
      replaced-Inv up up body ws ws' (sending (e ∷ es)) (sending es) inv h (λ x. x) inv.0 (λ x. x)
        (λ x. absurd x)

  Step-open : {c c' : Chain Any} → Step c c' → is_closed c ≡ true → is_closed c' ≡ true
  Step-open close_source h = refl
  Step-open (inner s) h = h
  Step-open (receive ws ws' outs g e made) h = h
  Step-open (again ws ws' e) h = h
  Step-open (exit ws ws' e c) h = h
  Step-open (close_out all) h = refl

  pub Step-Inv : {c c' : Chain Any} → Step c c' → Inv c → Inv c'
  Step-Inv close_source inv = tt
  Step-Inv (inner {up} {up'} s) (below, closing, leaves, some_worker) = (
    Step-Inv s below,
    closing,
    All-map (Leaves up) (Leaves up') _ (λ x k gone. Step-open s (k gone)) leaves,
    some_worker,
  )
  Step-Inv (receive {up} {up'} {body} ws ws' outs g h made) inv =
      replaced-Inv up up' body ws ws' receiving (sending outs) inv h (λ x. x) (Gives-Inv g inv.0)
        (λ c. absurd (cc (c, Gives-open g))) (λ x. absurd x)
  Step-Inv (again {up} {body} ws ws' h) inv =
      replaced-Inv up up body ws ws' (sending []) receiving inv h (λ x. x) inv.0 (λ x. x)
        (λ x. absurd x)
  Step-Inv (exit {up} {body} ws ws' h closed) inv =
      replaced-Inv up up body ws ws' receiving exited inv h (λ x. x) inv.0 (λ x. x) (λ x. closed)
  Step-Inv (close_out all) (below, closing, leaves, some_worker) =
      (below, λ x. all, leaves, some_worker)

  weigh-HasExited :
      (w : Any → ℕ) (workers : List (Worker Any))
      → All HasExited workers
      → weigh (pending w) workers ≡ 0
  weigh-HasExited w [] h = refl
  weigh-HasExited w (exited ∷ ws) h = omega (arith, weigh-HasExited w ws h.1)
  weigh-HasExited w (receiving ∷ ws) h = absurd h.0
  weigh-HasExited w (sending outs ∷ ws) h = absurd h.0

  up-closed :
      (up : Chain Any) (workers : List (Worker Any))
      → 1 ≤ length workers
      → All HasExited workers
      → All (Leaves up) workers
      → is_closed up ≡ true
  up-closed up [] n all leaves = absurd (omega arith)
  up-closed up (x ∷ workers) n all leaves = leaves.0 all.0

  -- Behind a closed output nothing is left.
  pub closed-load : (w : Any → ℕ) (c : Chain Any) → Inv c → is_closed c ≡ true → load w c ≡ 0
  closed-load w (source es) inv h = cc
  closed-load w spent inv h = refl
  closed-load w (pool up body workers closed) (below, closing, leaves, some_worker) h = omega (
    arith,
    weigh-HasExited w workers (closing h),
    closed-load (image body w) up below (up-closed up workers some_worker (closing h) leaves),
  )
