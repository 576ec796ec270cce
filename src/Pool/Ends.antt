-- ===== src/Pool/Ends.antt =====
-- A worker pool always comes to an end: it is never stuck before its output is closed, and no run
-- is longer than a number that depends on its input alone.
use go_streams.Prelude.{
  ℕ, suc, ◌+◌, ◌-◌, ◌*◌, ◌≤◌, ◌<◌, true, Option, none, some, List, [], ◌∷◌, ◌++◌, ◌≡◌, refl, ap,
  arith, length, weigh, weigh-append, weigh_swap, inl, inr, ◌⊎◌, Option-cases, Bool-cases,
}
use native.Mathlib.Decide.{dec_lt, ℕ_discrete}
use go_streams.Pool.{
  Worker, receiving, sending, exited, Main, starting, waiting, finished, Pool, Step, start,
  all_started, receive, deliver, again, exit, finish, Crash, bad_element, late_send, Reach, here,
  next,
}
use go_streams.Pool.Inv.{active, Inv, Reach-Inv, all_accepted}
use go_streams.Pool.Laws.{no-Crash}

-- A worker that has not exited, with the workers before and after it.
find_active {ℓ} :
    {B : Type ℓ} (ws : List (Worker B))
    → 0 < weigh active ws
    → (before after : List (Worker B)) × (a : Worker B) × (ws ≡ before ++ (a ∷ after))
      × (active a ≡ 1)
find_active [] h = absurd (omega arith)
find_active (receiving ∷ ws) h = ([], ws, receiving, refl, refl)
find_active (sending os ∷ ws) h = ([], ws, sending os, refl, refl)
find_active (exited ∷ ws) h =
    let (before, after, a, e, p) = find_active ws (omega arith) in
    (exited ∷ before, after, a, ap (λ l. exited ∷ l) e, p)

module _ {Any B : Type 0} (parallelism : ℕ) (body : Any → Option (List B)) where
  -- The pool is done, or some goroutine can go on, or some goroutine panics.
  abbrev pub Moves : Pool Any B → Type 0
  Moves s = ((t : Pool Any B) × Step parallelism body s t) ⊎ Crash parallelism body s

  worker-Moves :
      (s : Pool Any B) (ws ws' : List (Worker B)) (a : Worker B)
      → s.workers ≡ ws ++ (a ∷ ws')
      → active a ≡ 1
      → Moves s
  worker-Moves s ws ws' receiving hw p = by_input s.input refl
    where
      by_input : (es : List Any) → s.input ≡ es → Moves s
      by_input [] e = inl (_, exit ws ws' hw e)
      by_input (x ∷ xs) e = elim (Option-cases (body x)) [
        | inl bad ↦ inr (bad_element ws ws' x xs hw e bad)
        | inr (outs, good) ↦ inl (_, receive ws ws' x xs outs hw e good)
      ]
  worker-Moves s ws ws' (sending []) hw p = inl (_, again ws ws' hw)
  worker-Moves s ws ws' (sending (o ∷ os)) hw p = elim (Bool-cases s.out.closed) [
    | inl late ↦ inr (late_send ws ws' o os hw late)
    | inr early ↦ inl (_, deliver ws ws' o os hw early)
  ]
  worker-Moves s ws ws' exited hw p = absurd (omega arith)

  Moves-or_finished :
      {given : List Any} {s : Pool Any B}
      → Inv parallelism body given s
      → (s.main ≡ finished) ⊎ Moves s
  Moves-or_finished {s} inv = by_main s.main refl
    where
      by_main : (m : Main) → s.main ≡ m → (s.main ≡ finished) ⊎ Moves s
      by_main finished e = inl e
      by_main (starting i) e = elim (dec_lt i parallelism) [
        | yes lt ↦ inr (inl (_, start e lt))
        | no ge ↦ inr (inl (_, all_started e (omega arith)))
      ]
      by_main waiting e = elim (ℕ_discrete s.wg 0) [
        | yes z ↦ inr (inl (_, finish e z (ground (arith, inv.closing))))
        | no nz ↦
            let (before, after, a, hw, p) = find_active s.workers (omega (arith, inv.counted)) in
            inr (worker-Moves s before after a hw p)
      ]

  -- Every step makes this measure smaller.
  abbrev worker_cost : Worker B → ℕ
  worker_cost receiving = 1
  worker_cost (sending os) = length os + 2
  worker_cost exited = 0

  abbrev element_cost : Any → ℕ
  element_cost e = elim (body e) [ none ↦ 0 | some outs ↦ length outs + 2 ]

  abbrev main_cost : Main → ℕ
  main_cost (starting i) = 2 * (parallelism - i) + 2
  main_cost waiting = 1
  main_cost finished = 0

  abbrev cost : Pool Any B → ℕ
  cost s = main_cost s.main + weigh worker_cost s.workers + weigh element_cost s.input

  Step-cost : {s t : Pool Any B} → Step parallelism body s t → suc (cost t) ≤ cost s
  Step-cost {s} (start {i} h lt) =
      omega (arith, ap main_cost h, weigh-append worker_cost s.workers (receiving ∷ []))
  Step-cost (all_started h le) = omega (arith, ap main_cost h)
  Step-cost {s} (receive ws ws' e es outs hw hi hb) = ground (
    arith,
    weigh_swap worker_cost s.workers ws ws' receiving (sending outs) hw,
    ap (weigh element_cost) hi,
  )
  Step-cost {s} (deliver ws ws' o os hw hc) =
      omega (arith, weigh_swap worker_cost s.workers ws ws' (sending (o ∷ os)) (sending os) hw)
  Step-cost {s} (again ws ws' hw) =
      omega (arith, weigh_swap worker_cost s.workers ws ws' (sending []) receiving hw)
  Step-cost {s} (exit ws ws' hw hi) =
      omega (arith, weigh_swap worker_cost s.workers ws ws' receiving exited hw)
  Step-cost (finish h z hc) = omega (arith, ap main_cost h)

  -- No run is longer than this.
  abbrev pub longest : List Any → ℕ
  longest given = 2 * parallelism + 2 + weigh element_cost given

  Reach-cost :
      {given : List Any} {n : ℕ} {s : Pool Any B}
      → Reach parallelism body given n s
      → n + cost s ≤ longest given
  Reach-cost here = omega arith
  Reach-cost (next r st) = omega (arith, Reach-cost r, Step-cost st)

  -- On elements that pass their assertions a run of the pool has at most `longest` steps, and in
  -- every state that it can reach the output is closed or some goroutine can go on: so every run,
  -- in whatever order the goroutines move, ends with the output closed.
  pub run_ends :
      {given : List Any} {n : ℕ} {s : Pool Any B}
      → all_accepted body given ≡ true
      → Reach parallelism body given n s
      → (n ≤ longest given)
        × ((s.out.closed ≡ true) ⊎ ((t : Pool Any B) × Step parallelism body s t))
  run_ends {given} {s} typed r = (
    omega (arith, Reach-cost r),
    elim (Moves-or_finished inv) [
      | inl done ↦ inl (ground (arith, inv.closing))
      | inr (inl go) ↦ inr go
      | inr (inr bad) ↦ absurd (no-Crash inv typed bad)
    ],
  )
    where
      inv : Inv parallelism body given s
      inv = Reach-Inv parallelism body given r
