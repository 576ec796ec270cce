-- ===== src/Pools/Fresh.antt =====
-- Chains of pools as `Via` makes them (streams.go), and what they deliver if each pool treats its elements
-- one after the other.
use mathlib.Core.Path.{subst, sym}
use go_streams.Prelude.{
  ℕ, zero, suc, true, false, Option, List, [], ◌∷◌, ◌≡◌, inl, inr, refl, ap, arith, weigh,
  weigh-append, All, length, replicate, Option-cases,
}
use go_streams.Pool.{receiving}
use go_streams.Pool.Inv.{produced, all_accepted}
use go_streams.Pools.{Chain, source, spent, pool}
use go_streams.Pools.Load.{load, image, pending}
use go_streams.Pools.Inv.{Inv, Leaves}
use go_streams.Pools.Progress.{rejects, IsSafe}

module _ {Any : Type 0} where
  -- A chain as `Via` makes it: at least one worker in each pool, none of which has made a step.
  abbrev pub IsFresh : Chain Any → Type 0
  IsFresh (source es) = Unit
  IsFresh spent = ⊥
  IsFresh (pool up body workers closed) =
      IsFresh up × (closed ≡ false) × ((n : ℕ) × (workers ≡ replicate (suc n) receiving))

  -- What a fresh chain delivers if each pool treats the elements one after the other, in order.
  abbrev pub delivered : Chain Any → List Any
  delivered (source es) = es
  delivered spent = []
  delivered (pool up body workers closed) = produced body (delivered up)

  -- Every body accepts all that it is given then.
  abbrev pub AllAccepted : Chain Any → Type 0
  AllAccepted (source es) = Unit
  AllAccepted spent = Unit
  AllAccepted (pool up body workers closed) =
      AllAccepted up × (all_accepted body (delivered up) ≡ true)

  weigh-produced :
      (body : Any → Option (List Any)) (w : Any → ℕ) (es : List Any)
      → weigh w (produced body es) ≡ weigh (image body w) es
  weigh-produced body w [] = refl
  weigh-produced body w (e ∷ es) = elim (Option-cases (body e)) [
    | inl bad ↦ ground (arith, weigh-produced body w es)
    | inr (outs, made) ↦
        ground (arith, weigh-produced body w es, weigh-append w outs (produced body es))
  ]

  weigh-fresh : (w : Any → ℕ) (n : ℕ) → weigh (pending w) (replicate n receiving) ≡ 0
  weigh-fresh w zero = refl
  weigh-fresh w (suc n) = omega (arith, weigh-fresh w n)

  pub load-delivered : (w : Any → ℕ) (c : Chain Any) → IsFresh c → load w c ≡ weigh w (delivered c)
  load-delivered w (source es) fresh = refl
  load-delivered w spent fresh = absurd fresh
  load-delivered w (pool up body workers closed) (below, open_out, (n, all)) = omega (
    arith,
    ap (weigh (pending w)) all,
    weigh-fresh w (suc n),
    load-delivered (image body w) up below,
    weigh-produced body w (delivered up),
  )

  weigh-rejects :
      (body : Any → Option (List Any)) (es : List Any)
      → all_accepted body es ≡ true
      → weigh (rejects body) es ≡ 0
  weigh-rejects body [] h = refl
  weigh-rejects body (e ∷ es) h = elim (Option-cases (body e)) [
    | inl bad ↦ absurd (ground (arith, h, bad))
    | inr (outs, made) ↦ ground (arith, h, made, weigh-rejects body es)
  ]

  pub IsSafe-accepted : (c : Chain Any) → IsFresh c → AllAccepted c → IsSafe c
  IsSafe-accepted (source es) fresh accepted = tt
  IsSafe-accepted spent fresh accepted = tt
  IsSafe-accepted (pool up body workers closed) fresh accepted = (
    IsSafe-accepted up fresh.0 accepted.0,
    omega (
      arith,
      load-delivered (rejects body) up fresh.0,
      weigh-rejects body (delivered up) accepted.1,
    ),
  )

  Leaves-receiving : (up : Chain Any) (n : ℕ) → All (Leaves up) (replicate n receiving)
  Leaves-receiving up zero = tt
  Leaves-receiving up (suc n) = ((λ x. absurd x), Leaves-receiving up n)

  pub IsFresh-Inv : (c : Chain Any) → IsFresh c → Inv c
  IsFresh-Inv (source es) fresh = tt
  IsFresh-Inv spent fresh = tt
  IsFresh-Inv (pool up body workers closed) (below, open_out, (n, all)) = (
    IsFresh-Inv up below,
    λ h. absurd (cc (h, open_out)),
    subst (All (Leaves up)) (sym all) (Leaves-receiving up (suc n)),
    omega (arith, ap length all),
  )
