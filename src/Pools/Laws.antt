-- ===== src/Pools/Laws.antt =====
-- What a program of pools does as a whole, under every interleaving of their workers (flow/map.go,
-- flow/filter.go, flow/flat_map.go).
use go_streams.Prelude.{
  ℕ, suc, ◌+◌, ◌≤◌, Bool, true, false, List, [], ◌∷◌, ◌≡◌, ◌⊎◌, inl, inr, refl, arith, weigh,
  weigh-append, SameBag,
}
use go_streams.Pools.{
  Chain, Crash, Program, start, Run, work, sink_receive, sink_done, Runs, here, ◌⨾◌,
}
use go_streams.Pools.Load.{load, Gives-load, Step-load}
use go_streams.Pools.Inv.{Inv, Gives-Inv, Step-Inv, closed-load}
use go_streams.Pools.Progress.{
  unit_weight, steps_left, Gives-steps_left, Step-steps_left, ready, is_over, gives, steps, crashes,
  IsSafe, Gives-IsSafe, Step-IsSafe, IsSafe-no-Crash, closing_step,
}
use go_streams.Pools.Fresh.{
  IsFresh, delivered, AllAccepted, load-delivered, IsSafe-accepted, IsFresh-Inv,
}

module _ {Any : Type 0} where
  -- The steps of the whole program until its end; the last one is that of the sink.
  abbrev pub program_left : Program Any → ℕ
  program_left p = steps_left p.chain + (load unit_weight p.chain + closing_step p.done)

  -- What holds of a program that started with `c`.
  record ProgramInv (c : Chain Any) (p : Program Any) : Type 0 where
    fine : Inv p.chain
    safe : IsSafe p.chain
    all : (w : Any → ℕ) → weigh w p.sunk + load w p.chain ≡ load w c
    over : p.done ≡ true → (w : Any → ℕ) → load w p.chain ≡ 0

  Run-ProgramInv : {c : Chain Any} {p q : Program Any} → Run p q → ProgramInv c p → ProgramInv c q
  Run-ProgramInv (work s) inv = record {
    fine = Step-Inv s inv.fine;
    safe = Step-IsSafe s inv.safe;
    all = λ w. omega (arith, inv.all w, Step-load w s);
    over = λ d w. omega (arith, inv.over d w, Step-load w s);
  }
  Run-ProgramInv (sink_receive {l} {e} g) inv = record {
    fine = Gives-Inv g inv.fine;
    safe = Gives-IsSafe g inv.safe;
    all = λ w. omega (arith, inv.all w, Gives-load w g, weigh-append w l (e ∷ []));
    over = λ d. absurd (cc d);
  }
  Run-ProgramInv (sink_done {c} h) inv = record {
    fine = inv.fine;
    safe = inv.safe;
    all = inv.all;
    over = λ d w. closed-load w c inv.fine h;
  }

  Run-program_left : {p q : Program Any} → Run p q → program_left p ≡ suc (program_left q)
  Run-program_left (work s) = omega (arith, Step-steps_left s, Step-load unit_weight s)
  Run-program_left (sink_receive g) = omega (arith, Gives-steps_left g, Gives-load unit_weight g)
  Run-program_left (sink_done h) = omega arith

  Runs-program_left : {k : ℕ} {p q : Program Any} → Runs k p q → k + program_left q ≡ program_left p
  Runs-program_left here = omega arith
  Runs-program_left (r ⨾ h) = omega (arith, Runs-program_left r, Run-program_left h)

  Runs-ProgramInv :
      {k : ℕ} {c : Chain Any} {p : Program Any}
      → Inv c
      → IsSafe c
      → Runs k (start c) p
      → ProgramInv c p
  Runs-ProgramInv fine safe here = record {
    fine = fine;
    safe = safe;
    all = λ w. omega arith;
    over = λ d. absurd (cc d);
  }
  Runs-ProgramInv fine safe (r ⨾ h) = Run-ProgramInv h (Runs-ProgramInv fine safe r)

  goes_on :
      (c : Chain Any) (l : List Any) (b : Bool)
      → IsSafe c
      → (b ≡ true) ⊎ ((q : Program Any) × Run (record { chain = c; sunk = l; done = b }) q)
  goes_on c l true h = inl refl
  goes_on c l false h = elim (ready c) [
    | is_over o ↦ inr (_, sink_done o)
    | gives e c' g ↦ inr (_, sink_receive g)
    | steps c' s ↦ inr (_, work s)
    | crashes k ↦ absurd (IsSafe-no-Crash h k)
  ]

  -- A program of pools, each of any number of workers and with a body that accepts what it is given,
  -- comes to its end under every interleaving of all workers. After `k` steps from its start: `k` is at
  -- most the number of steps known from the start; no worker fails an assertion; and either the sink
  -- is done and has received exactly what it would if each pool treated its elements one after the
  -- other, in some order, or the program can go on.
  pub pools_complete :
      (c : Chain Any) {k : ℕ} {p : Program Any}
      → IsFresh c
      → AllAccepted c
      → Runs k (start c) p
      → (k ≤ program_left (start c))
        × (¬ Crash p.chain)
        × (((p.done ≡ true) × SameBag p.sunk (delivered c)) ⊎ ((q : Program Any) × Run p q))
  pools_complete c {p} fresh accepted r =
      let inv = Runs-ProgramInv (IsFresh-Inv c fresh) (IsSafe-accepted c fresh accepted) r in
      (
        omega (arith, Runs-program_left r),
        IsSafe-no-Crash inv.safe,
        elim (goes_on p.chain p.sunk p.done inv.safe) [
          | inl d ↦ inl (d, λ w. omega (arith, inv.all w, inv.over d w, load-delivered w c fresh))
          | inr q ↦ inr q
        ],
      )
