-- ===== src/RoundRobin/Laws.antt =====
-- What `RoundRobin` delivers (flow/util.go).
use go_streams.Prelude.{
  ℕ, zero, suc, ◌≤◌, true, List, [], ◌∷◌, ◌++◌, ◌≡◌, refl, ap, ◌∙◌, arith, map, replicate, weigh,
  concat, weigh-append, SameBag, All, All-at, length, length_swap, append-nil, IsSubsequence,
}
use mathlib.Core.Path.{subst}
use go_streams.RoundRobin.{
  Stage, ranging, exited, holding, Forwarder, RoundRobin, init, receive, deliver, leave, Crash,
  late_send, late_close, Reach, here, next,
}
use go_streams.RoundRobin.Inv.{taken, IsFine, Reach-Inv}

length-replicate : {A : Type 0} (n : ℕ) (a : A) → length (replicate n a) ≡ n
length-replicate zero a = refl
length-replicate (suc n) a = omega (arith, length-replicate n a)

module _ {Any : Type 0} where
  -- What each flow has received.
  abbrev pub received : RoundRobin Any → List (List Any)
  received s = map (λ f. f.flow.history) s.forwarders

  abbrev pub AllClosed : RoundRobin Any → Type 0
  AllClosed s = All (λ f. f.flow.closed ≡ true) s.forwarders

  length-forwarders :
      {given : List Any} (n : ℕ) {s : RoundRobin Any}
      → Reach (init n given) s
      → length s.forwarders ≡ n
  length-forwarders n here = length-replicate n _
  length-forwarders n (next {t} r (receive fs fs' f e es h g i)) =
      length_swap t.forwarders fs fs' f _ h ∙ length-forwarders n r
  length-forwarders n (next {t} r (deliver fs fs' f e h g o)) =
      length_swap t.forwarders fs fs' f _ h ∙ length-forwarders n r
  length-forwarders n (next {t} r (leave fs fs' f h g i o)) =
      length_swap t.forwarders fs fs' f _ h ∙ length-forwarders n r

  taken-closed :
      {given input : List Any} (f : Forwarder Any)
      → IsFine given input f
      → f.flow.closed ≡ true
      → (taken f ≡ f.flow.history) × (input ≡ [])
  taken-closed {given} {input} f fine c = by_stage f.stage refl
    where
      by_stage : (g : Stage Any) → f.stage ≡ g → (taken f ≡ f.flow.history) × (input ≡ [])
      by_stage exited e = (ground (arith, e), fine.over (ground (arith, e)))
      by_stage ranging e = ground (arith, e, fine.closed, c)
      by_stage (holding x) e = ground (arith, e, fine.closed, c)

  weigh-received :
      (given input : List Any) (w : Any → ℕ) (fs : List (Forwarder Any))
      → All (IsFine given input) fs
      → All (λ f. f.flow.closed ≡ true) fs
      → weigh w (concat (map (λ f. f.flow.history) fs)) ≡ weigh (λ f. weigh w (taken f)) fs
  weigh-received given input w [] fine closed = refl
  weigh-received given input w (f ∷ fs) (fine, more) (c, cs) = omega (
    arith,
    weigh-append w f.flow.history (concat (map (λ g. g.flow.history) fs)),
    weigh-received given input w fs more cs,
    ap (weigh w) (taken-closed f fine c).0,
  )

  nothing_left :
      (given input : List Any) (fs : List (Forwarder Any))
      → 1 ≤ length fs
      → All (IsFine given input) fs
      → All (λ f. f.flow.closed ≡ true) fs
      → input ≡ []
  nothing_left given input [] some fine closed = absurd (omega arith)
  nothing_left given input (f ∷ fs) some (fine, more) (c, cs) = (taken-closed f fine c).1

  IsSubsequence-received :
      (given input : List Any) (fs : List (Forwarder Any))
      → All (IsFine given input) fs
      → All (λ f. f.flow.closed ≡ true) fs
      → All (λ l. IsSubsequence l given) (map (λ f. f.flow.history) fs)
  IsSubsequence-received given input [] fine closed = tt
  IsSubsequence-received given input (f ∷ fs) (fine, more) (c, cs) =
      let (all_taken, no_input) = taken-closed f fine c in
      (
        subst (λ l. IsSubsequence l given) (append-nil f.flow.history)
            (rw (all_taken, no_input) at fine.ordered),
        IsSubsequence-received given input fs more cs,
      )

  -- When all flows of a round robin over at least one are closed, after any interleaving of its
  -- goroutines, it has read all elements; each has gone to exactly one of the flows; and every flow has
  -- received its elements in the order of the outlet.
  pub round_robin_complete :
      (n : ℕ) (given : List Any) {s : RoundRobin Any}
      → 1 ≤ n
      → Reach (init n given) s
      → AllClosed s
      → (s.input ≡ [])
        × (length s.forwarders ≡ n)
        × SameBag (concat (received s)) given
        × All (λ l. IsSubsequence l given) (received s)
  round_robin_complete n given {s} some r closed =
      let inv = Reach-Inv n r in
      let size = length-forwarders n r in
      let no_input =
        nothing_left given s.input s.forwarders (omega (arith, size, some)) inv.fine closed in
      (
        no_input,
        size,
        λ w. omega (
          arith,
          inv.bag w,
          ap (weigh w) no_input,
          weigh-received given s.input w s.forwarders inv.fine closed,
        ),
        IsSubsequence-received given s.input s.forwarders inv.fine closed,
      )

  -- Whatever the interleaving, no goroutine of a round robin sends on its closed flow or closes it
  -- twice.
  round_robin_no-Crash :
      (n : ℕ) (given : List Any) {s : RoundRobin Any} → Reach (init n given) s → ¬ Crash s
  round_robin_no-Crash n given {s} r crash = by_crash crash
    where
      fine_at :
          (fs fs' : List (Forwarder Any)) (f : Forwarder Any)
          → s.forwarders ≡ fs ++ (f ∷ fs')
          → IsFine given s.input f
      fine_at fs fs' f h =
          All-at (IsFine given s.input) fs fs' f
            (subst (All (IsFine given s.input)) h (Reach-Inv n r).fine)

      by_crash : Crash s → ⊥
      by_crash (late_send fs fs' f e h g c) = ground (arith, (fine_at fs fs' f h).closed, g, c)
      by_crash (late_close fs fs' f h g i c) = ground (arith, (fine_at fs fs' f h).closed, g, c)
