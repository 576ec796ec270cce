-- ===== src/RoundRobin/Inv.antt =====
-- What holds of a round robin between two steps.
use go_streams.Prelude.{
  ℕ, zero, suc, ◌+◌, Bool, true, false, List, [], ◌∷◌, ◌++◌, ◌≡◌, refl, ap, arith, weigh,
  weigh-append, weigh_swap, All, All-replace, All-at, append_assoc, IsSubsequence,
  IsSubsequence-refl, IsSubsequence-drop,
}
use mathlib.Core.Path.{subst}
use go_streams.RoundRobin.{
  Stage, ranging, exited, holding, Forwarder, RoundRobin, init, Step, receive, deliver, leave,
  Reach, here, next,
}

module _ {Any : Type 0} where
  -- What a forwarder has taken from the outlet.
  abbrev pub taken : Forwarder Any → List Any
  taken f = elim f.stage [
    | ranging ↦ f.flow.history
    | exited ↦ f.flow.history
    | holding e ↦ f.flow.history ++ (e ∷ [])
  ]

  abbrev pub has_exited : Stage Any → Bool
  has_exited exited = true
  has_exited _ = false

  -- What holds of a forwarder while `input` is still to come.
  pub record IsFine (given input : List Any) (f : Forwarder Any) : Type 0 where
    pub ordered : IsSubsequence (taken f ++ input) given
    pub closed : f.flow.closed ≡ has_exited f.stage
    pub over : has_exited f.stage ≡ true → input ≡ []

  pub record Inv (given : List Any) (s : RoundRobin Any) : Type 0 where
    pub fine : All (IsFine given s.input) s.forwarders
    pub bag :
        (w : Any → ℕ)
        → weigh (λ f. weigh w (taken f)) s.forwarders + weigh w s.input ≡ weigh w given

  IsFine-init : (given : List Any) (n : ℕ) → All (IsFine given given) (init n given).forwarders
  IsFine-init given zero = tt
  IsFine-init given (suc n) = (
    record { ordered = IsSubsequence-refl given; closed = refl; over = λ h. cc h },
    IsFine-init given n,
  )

  bag-init :
      (w : Any → ℕ) (given : List Any) (n : ℕ)
      → weigh (λ f. weigh w (taken f)) (init n given).forwarders ≡ 0
  bag-init w given zero = refl
  bag-init w given (suc n) = omega (arith, bag-init w given n)

  -- An element that another forwarder takes.
  IsFine-tail :
      (given : List Any) (e : Any) (es : List Any) (f : Forwarder Any)
      → IsFine given (e ∷ es) f
      → IsFine given es f
  IsFine-tail given e es f h = record {
    ordered = IsSubsequence-drop (taken f) e es given h.ordered;
    closed = h.closed;
    over = λ x. cc (h.over x);
  }

  -- The forwarder whose step it is, and what it was before.
  at_step :
      {given : List Any} {s : RoundRobin Any} (fs fs' : List (Forwarder Any)) (f : Forwarder Any)
      → Inv given s
      → s.forwarders ≡ fs ++ (f ∷ fs')
      → All (IsFine given s.input) (fs ++ (f ∷ fs')) × IsFine given s.input f
  at_step {given} {s} fs fs' f inv h =
      let all = subst (All (IsFine given s.input)) h inv.fine in
      (all, All-at (IsFine given s.input) fs fs' f all)

  Step-IsFine :
      {given : List Any} {s t : RoundRobin Any}
      → Step s t
      → Inv given s
      → All (IsFine given t.input) t.forwarders
  Step-IsFine {given} {s} (receive fs fs' f e es h r i) inv =
      let (all, mine) = at_step fs fs' f inv h in
      All-replace (IsFine given s.input) (IsFine given es) fs fs' f (record f { stage = holding e })
        (λ x k. IsFine-tail given e es x (subst (λ l. IsFine given l x) i k)) all
        (record {
          ordered = ground (arith, mine.ordered, i, r, append_assoc f.flow.history (e ∷ []) es);
          closed = ground (arith, mine.closed, r);
          over = λ x. cc x;
        })
  Step-IsFine {given} {s} (deliver fs fs' f e h r o) inv =
      let (all, mine) = at_step fs fs' f inv h in
      All-replace (IsFine given s.input) (IsFine given s.input) fs fs' f _ (λ x k. k) all
        (record { ordered = ground (arith, mine.ordered, r); closed = refl; over = λ x. cc x })
  Step-IsFine {given} {s} (leave fs fs' f h r i o) inv =
      let (all, mine) = at_step fs fs' f inv h in
      All-replace (IsFine given s.input) (IsFine given s.input) fs fs' f _ (λ x k. k) all
        (record { ordered = ground (arith, mine.ordered, r); closed = refl; over = λ x. i })

  Step-bag :
      {given : List Any} {s t : RoundRobin Any}
      → Step s t
      → Inv given s
      → (w : Any → ℕ)
      → weigh (λ f. weigh w (taken f)) t.forwarders + weigh w t.input ≡ weigh w given
  Step-bag {given} {s} (receive fs fs' f e es h r i) inv w = ground (
    arith,
    r,
    ap (weigh w) i,
    inv.bag w,
    weigh_swap (λ g. weigh w (taken g)) s.forwarders fs fs' f (record f { stage = holding e }) h,
    weigh-append w f.flow.history (e ∷ []),
  )
  Step-bag {given} {s} (deliver fs fs' f e h r o) inv w = ground (
    arith,
    r,
    inv.bag w,
    weigh_swap (λ g. weigh w (taken g)) s.forwarders fs fs' f
        (record {
          stage = ranging;
          flow = record { history = f.flow.history ++ (e ∷ []); closed = false };
        })
        h,
  )
  Step-bag {given} {s} (leave fs fs' f h r i o) inv w = ground (
    arith,
    r,
    inv.bag w,
    weigh_swap (λ g. weigh w (taken g)) s.forwarders fs fs' f
        (record { stage = exited; flow = record { history = f.flow.history; closed = true } }) h,
  )

  pub Reach-Inv :
      {given : List Any} (n : ℕ) {s : RoundRobin Any} → Reach (init n given) s → Inv given s
  Reach-Inv {given} n here = record {
    fine = IsFine-init given n;
    bag = λ w. omega (arith, bag-init w given n);
  }
  Reach-Inv n (next r st) =
      let inv = Reach-Inv n r in record { fine = Step-IsFine st inv; bag = Step-bag st inv }
