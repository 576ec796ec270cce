-- ===== src/Pipeline/Laws.antt =====
-- What a program of the library does as a whole, under every interleaving of its goroutines (the `Via`
-- and `To` of streams.go).
use go_streams.Prelude.{
  ℕ, suc, ◌+◌, ◌≤◌, Bool, true, false, List, [], ◌∷◌, ◌++◌, ◌≡◌, ◌⊎◌, inl, inr, refl, ap, sym, ◌∙◌,
  arith, length, append-nil, append_assoc,
}
use go_streams.Pipeline.{
  Chain, Crash, Program, start, Run, work, sink_receive, sink_done, Runs, here, ◌⨾◌,
}
use go_streams.Pipeline.Remains.{remains, is_closed-remains, Gives-remains, Step-remains}
use go_streams.Pipeline.Progress.{
  steps_left, Gives-steps_left, Step-steps_left, ready, is_over, gives, steps, crashes,
}
use go_streams.Pipeline.Safe.{IsSafe, Gives-IsSafe, Step-IsSafe, IsSafe-no-Crash}

-- The step of the sink that is left.
abbrev pub sink_left : Bool → ℕ
sink_left true = 0
sink_left false = 1

module _ {Any : Type 0} where
  -- The steps of the whole program until its end.
  abbrev pub program_left : Program Any → ℕ
  program_left p = steps_left p.chain + (length (remains p.chain) + sink_left p.done)

  -- What holds of a program that started with `c`.
  record Inv (c : Chain Any) (p : Program Any) : Type 0 where
    all : p.sunk ++ remains p.chain ≡ remains c
    over : p.done ≡ true → remains p.chain ≡ []
    safe : IsSafe p.chain

  Run-Inv : {c : Chain Any} {p q : Program Any} → Run p q → Inv c p → Inv c q
  Run-Inv (work {l} h) inv = record {
    all = ap (λ rest. l ++ rest) (sym (Step-remains h)) ∙ inv.all;
    over = λ d. sym (Step-remains h) ∙ inv.over d;
    safe = Step-IsSafe h inv.safe;
  }
  Run-Inv (sink_receive {c'} {l} {e} g) inv = record {
    all = ground (arith, inv.all, Gives-remains g, append_assoc l (e ∷ []) (remains c'));
    over = λ d. cc d;
    safe = Gives-IsSafe g inv.safe;
  }
  Run-Inv (sink_done {c} h) inv = record {
    all = inv.all;
    over = λ d. is_closed-remains c h;
    safe = inv.safe;
  }

  Run-program_left : {p q : Program Any} → Run p q → program_left p ≡ suc (program_left q)
  Run-program_left (work h) = omega (arith, Step-steps_left h, ap length (Step-remains h))
  Run-program_left (sink_receive g) = omega (arith, Gives-steps_left g, ap length (Gives-remains g))
  Run-program_left (sink_done h) = omega arith

  Runs-program_left : {k : ℕ} {p q : Program Any} → Runs k p q → k + program_left q ≡ program_left p
  Runs-program_left here = omega arith
  Runs-program_left (r ⨾ h) = omega (arith, Runs-program_left r, Run-program_left h)

  Runs-Inv : {k : ℕ} {c : Chain Any} {p : Program Any} → IsSafe c → Runs k (start c) p → Inv c p
  Runs-Inv safe here = record { all = refl; over = λ d. cc d; safe = safe }
  Runs-Inv safe (r ⨾ h) = Run-Inv h (Runs-Inv safe r)

  -- What comes next in a program: nothing, because its sink is done, or a step.
  abbrev pub IsLive : Program Any → Type 1
  IsLive p = (p.done ≡ true) ⊎ ((q : Program Any) × Run p q)

  IsSafe-IsLive : (p : Program Any) → IsSafe p.chain → IsLive p
  IsSafe-IsLive p safe = by_done p.chain p.sunk p.done safe
    where
      by_done :
          (c : Chain Any) (l : List Any) (b : Bool)
          → IsSafe c
          → IsLive (record { chain = c; sunk = l; done = b })
      by_done c l true h = inl refl
      by_done c l false h = elim (ready c) [
        | is_over o ↦ inr (_, sink_done o)
        | gives e c' g ↦ inr (_, sink_receive g)
        | steps c' r ↦ inr (_, work r)
        | crashes k ↦ absurd (IsSafe-no-Crash h k)
      ]

  -- A program of goroutines that accept what they are given comes to its end under every
  -- interleaving, always with the same result. After `k` steps from its start: `k` is at most the number
  -- of steps known from the start; no goroutine panics; what the sink has received and what the
  -- chain has still to deliver make up the outputs of the operators, one applied to the other; and
  -- either the sink is done and has received all of these, or the program can go on.
  pub pipeline_complete :
      (c : Chain Any) {k : ℕ} {p : Program Any}
      → IsSafe c
      → Runs k (start c) p
      → (k ≤ program_left (start c))
        × (¬ Crash p.chain)
        × (p.sunk ++ remains p.chain ≡ remains c)
        × (((p.done ≡ true) × (p.sunk ≡ remains c)) ⊎ ((q : Program Any) × Run p q))
  pipeline_complete c {p} safe r =
      let inv = Runs-Inv safe r in
      (
        omega (arith, Runs-program_left r),
        IsSafe-no-Crash inv.safe,
        inv.all,
        elim (IsSafe-IsLive p inv.safe) [ inl d ↦ inl (d, all_sunk inv d) | inr q ↦ inr q ],
      )
    where
      all_sunk : Inv c p → p.done ≡ true → p.sunk ≡ remains c
      all_sunk inv d = sym (append-nil p.sunk) ∙ ap (λ l. p.sunk ++ l) (sym (inv.over d)) ∙ inv.all
