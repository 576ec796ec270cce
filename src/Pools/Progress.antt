-- ===== src/Pools/Progress.antt =====
-- How far a chain of pools (flow/map.go, flow/filter.go, flow/flat_map.go) is from its end, and that until
-- then some goroutine can go on.
use go_streams.Prelude.{
  ℕ, suc, ◌+◌, ◌*◌, Bool, true, false, Option, none, some, List, [], ◌∷◌, ◌++◌, ◌≡◌, inl, inr, refl,
  ap, arith, weigh, weigh_swap, All, Option-cases,
}
use go_streams.Pool.{Worker, receiving, sending, exited}
use go_streams.Pools.{
  Chain, source, spent, pool, Gives, source_gives, worker_gives, is_closed, HasExited, Step,
  close_source, inner, receive, again, exit, close_out, Crash, inner_crash, bad_element,
}
use go_streams.Pools.Load.{load, Gives-load, Step-load}

-- The closing of an output, if it is still to come.
abbrev pub closing_step : Bool → ℕ
closing_step true = 0
closing_step false = 1

module _ {Any : Type 0} where
  abbrev pub unit_weight : Any → ℕ
  unit_weight e = 1

  -- The own steps of a worker, but for those of an element that it has yet to receive.
  abbrev pub own_steps : Worker Any → ℕ
  own_steps receiving = 1
  own_steps (sending outs) = 2
  own_steps exited = 0

  -- The steps inside a chain until all its channels are closed.
  abbrev pub steps_left : Chain Any → ℕ
  steps_left (source es) = 1
  steps_left spent = 0
  steps_left (pool up body workers closed) =
      steps_left up + (2 * load unit_weight up + (weigh own_steps workers + closing_step closed))

  pub Gives-steps_left : {c c' : Chain Any} {e : Any} → Gives c e c' → steps_left c ≡ steps_left c'
  Gives-steps_left source_gives = refl
  Gives-steps_left (worker_gives {workers} ws ws' e es h) =
      omega (arith, weigh_swap own_steps workers ws ws' (sending (e ∷ es)) (sending es) h)

  pub Step-steps_left : {c c' : Chain Any} → Step c c' → steps_left c ≡ suc (steps_left c')
  Step-steps_left close_source = refl
  Step-steps_left (inner s) = omega (arith, Step-steps_left s, Step-load unit_weight s)
  Step-steps_left (receive {workers} ws ws' outs g h made) = omega (
    arith,
    Gives-steps_left g,
    Gives-load unit_weight g,
    weigh_swap own_steps workers ws ws' receiving (sending outs) h,
  )
  Step-steps_left (again {workers} ws ws' h) =
      omega (arith, weigh_swap own_steps workers ws ws' (sending []) receiving h)
  Step-steps_left (exit {workers} ws ws' h closed) =
      omega (arith, weigh_swap own_steps workers ws ws' receiving exited h)
  Step-steps_left (close_out all) = omega arith

  -- What the last pool of a chain can do for whoever receives from its output.
  pub data Ready (c : Chain Any) : Type 0 where
    is_over : is_closed c ≡ true → Ready c
    gives : (e : Any) (c' : Chain Any) → Gives c e c' → Ready c
    steps : (c' : Chain Any) → Step c c' → Ready c
    crashes : Crash c → Ready c

  -- All workers have exited, or one has not.
  data Found (workers : List (Worker Any)) : Type 0 where
    none_left : All HasExited workers → Found workers
    receives : (ws ws' : List (Worker Any)) → workers ≡ ws ++ (receiving ∷ ws') → Found workers
    sends :
        (ws ws' : List (Worker Any)) (outs : List Any)
        → workers ≡ ws ++ (sending outs ∷ ws')
        → Found workers

  find_worker : (workers : List (Worker Any)) → Found workers
  find_worker [] = none_left tt
  find_worker (receiving ∷ ws) = receives [] ws refl
  find_worker (sending outs ∷ ws) = sends [] ws outs refl
  find_worker (exited ∷ ws) = elim (find_worker ws) [
    | none_left all ↦ none_left (tt, all)
    | receives before after h ↦ receives (exited ∷ before) after (ap (λ l. exited ∷ l) h)
    | sends before after outs h ↦ sends (exited ∷ before) after outs (ap (λ l. exited ∷ l) h)
  ]

  -- A worker at its `range`, by what its input can do.
  receiving-Ready :
      (up : Chain Any) (body : Any → Option (List Any)) (workers ws ws' : List (Worker Any))
      (closed : Bool)
      → workers ≡ ws ++ (receiving ∷ ws')
      → Ready up
      → Ready (pool up body workers closed)
  receiving-Ready up body workers ws ws' closed h (is_over over) = steps _ (exit ws ws' h over)
  receiving-Ready up body workers ws ws' closed h (steps up' s) = steps _ (inner s)
  receiving-Ready up body workers ws ws' closed h (crashes k) = crashes (inner_crash k)
  receiving-Ready up body workers ws ws' closed h (gives e up' g) = elim (Option-cases (body e)) [
    | inl bad ↦ crashes (bad_element g bad)
    | inr (outs, made) ↦ steps _ (receive ws ws' outs g h made)
  ]

  found-Ready :
      (up : Chain Any) (body : Any → Option (List Any)) (workers : List (Worker Any))
      → Found workers
      → Ready up
      → Ready (pool up body workers false)
  found-Ready up body workers (none_left all) r = steps _ (close_out all)
  found-Ready up body workers (receives ws ws' h) r =
      receiving-Ready up body workers ws ws' false h r
  found-Ready up body workers (sends ws ws' [] h) r = steps _ (again ws ws' h)
  found-Ready up body workers (sends ws ws' (e ∷ es) h) r = gives e _ (worker_gives ws ws' e es h)

  pub ready : (c : Chain Any) → Ready c
  ready (source []) = steps spent close_source
  ready (source (e ∷ es)) = gives e (source es) source_gives
  ready spent = is_over refl
  ready (pool up body workers true) = is_over refl
  ready (pool up body workers false) = found-Ready up body workers (find_worker workers) (ready up)

  -- How many of the elements a body does not accept: an element weighs 1 if it is one of these.
  abbrev pub rejects : (Any → Option (List Any)) → Any → ℕ
  rejects body e = elim (body e) [ none ↦ 1 | some outs ↦ 0 ]

  -- No body of a chain will be given an element that it does not accept.
  abbrev pub IsSafe : Chain Any → Type 0
  IsSafe (source es) = Unit
  IsSafe spent = Unit
  IsSafe (pool up body workers closed) = IsSafe up × (load (rejects body) up ≡ 0)

  pub Gives-IsSafe : {c c' : Chain Any} {e : Any} → Gives c e c' → IsSafe c → IsSafe c'
  Gives-IsSafe source_gives safe = tt
  Gives-IsSafe (worker_gives ws ws' e es h) safe = safe

  pub Step-IsSafe : {c c' : Chain Any} → Step c c' → IsSafe c → IsSafe c'
  Step-IsSafe close_source safe = tt
  Step-IsSafe (inner {body} s) (safe, accepted) =
      (Step-IsSafe s safe, omega (arith, Step-load (rejects body) s))
  Step-IsSafe (receive {body} ws ws' outs g h made) (safe, accepted) =
      (Gives-IsSafe g safe, omega (arith, Gives-load (rejects body) g))
  Step-IsSafe (again ws ws' h) safe = safe
  Step-IsSafe (exit ws ws' h closed) safe = safe
  Step-IsSafe (close_out all) safe = safe

  rejects-none : (body : Any → Option (List Any)) {e : Any} → body e ≡ none → rejects body e ≡ 1
  rejects-none body h = ground arith

  pub IsSafe-no-Crash : {c : Chain Any} → IsSafe c → ¬ Crash c
  IsSafe-no-Crash safe (inner_crash k) = IsSafe-no-Crash safe.0 k
  IsSafe-no-Crash safe (bad_element {body} g bad) =
      omega (arith, safe.1, Gives-load (rejects body) g, rejects-none body bad)
