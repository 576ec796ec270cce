-- ===== src/Pool/Inv.antt =====
-- The invariant of a worker pool, kept by every step.
use go_streams.Prelude.{
  ℕ, ◌+◌, ◌≤◌, ◌<◌, Bool, true, false, Option, none, some, List, [], ◌∷◌, ◌++◌, ◌≡◌, refl, ap,
  arith, length, length-append, weigh_swap, length_swap, weigh, weigh-append,
}
use go_streams.Pool.{
  Worker, receiving, sending, exited, Main, starting, waiting, finished, Pool, init, Step, start,
  all_started, receive, deliver, again, exit, finish, Reach, here, next,
}

abbrev pub active {ℓ} : {B : Type ℓ} → Worker B → ℕ
active exited = 0
active _ = 1

abbrev pub gone {ℓ} : {B : Type ℓ} → Worker B → ℕ
gone exited = 1
gone _ = 0

-- The weight of what a worker still sends.
abbrev pub load {ℓ} : {B : Type ℓ} → (B → ℕ) → Worker B → ℕ
load w (sending os) = weigh w os
load w _ = 0

pub active-add-gone {ℓ} :
    {B : Type ℓ} (ws : List (Worker B)) → weigh active ws + weigh gone ws ≡ length ws
active-add-gone [] = refl
active-add-gone (receiving ∷ ws) = omega (arith, active-add-gone ws)
active-add-gone (sending os ∷ ws) = omega (arith, active-add-gone ws)
active-add-gone (exited ∷ ws) = omega (arith, active-add-gone ws)

pub load-eq-zero {ℓ} :
    {B : Type ℓ} (w : B → ℕ) (ws : List (Worker B)) → weigh active ws ≡ 0 → weigh (load w) ws ≡ 0
load-eq-zero w [] h = refl
load-eq-zero w (receiving ∷ ws) h = absurd (omega arith)
load-eq-zero w (sending os ∷ ws) h = absurd (omega arith)
load-eq-zero w (exited ∷ ws) h = omega (arith, load-eq-zero w ws (omega arith))

module _ {Any B : Type 0} (body : Any → Option (List B)) where
  -- All that is sent for a list of elements, in their order.
  abbrev pub produced : List Any → List B
  produced [] = []
  produced (e ∷ es) = elim (body e) [ none ↦ produced es | some outs ↦ outs ++ produced es ]

  abbrev pub all_accepted : List Any → Bool
  all_accepted [] = true
  all_accepted (e ∷ es) = elim (body e) [ none ↦ false | some outs ↦ all_accepted es ]

-- How many workers there are, by the place of the main goroutine.
abbrev pub Started : ℕ → Main → ℕ → Type 0
Started parallelism (starting i) n = (n ≡ i) × (i ≤ parallelism)
Started parallelism _ n = n ≡ parallelism

abbrev pub IsClosed : Main → ℕ → Bool → Type 0
IsClosed finished wg closed = (wg ≡ 0) × (closed ≡ true)
IsClosed _ wg closed = closed ≡ false

module _ {Any B : Type 0} (parallelism : ℕ) (body : Any → Option (List B)) (given : List Any) where
  pub record Inv (s : Pool Any B) : Type 0 where
    pub counted : s.wg ≡ weigh active s.workers
    pub started : Started parallelism s.main (length s.workers)
    pub closing : IsClosed s.main s.wg s.out.closed
    pub drained : 0 < weigh gone s.workers → s.input ≡ []
    pub accepted : all_accepted body given ≡ true → all_accepted body s.input ≡ true
    pub bag :
        (w : B → ℕ)
        → weigh w s.out.history + weigh (load w) s.workers + weigh w (produced body s.input)
          ≡ weigh w (produced body given)

  init-Inv : Inv (init given)
  init-Inv = record {
    counted = refl;
    started = (refl, omega arith);
    closing = refl;
    drained = λ h. absurd (omega arith);
    accepted = λ h. h;
    bag = λ w. omega arith;
  }

  module _ {s : Pool Any B} (inv : Inv s) where
    open inv use {counted, started, closing, drained, accepted, bag}

    Step-counted : {t : Pool Any B} → Step parallelism body s t → t.wg ≡ weigh active t.workers
    Step-counted (start h lt) =
        omega (arith, counted, weigh-append active s.workers (receiving ∷ []))
    Step-counted (all_started h le) = counted
    Step-counted (receive ws ws' e es outs hw hi hb) =
        omega (arith, counted, weigh_swap active s.workers ws ws' receiving (sending outs) hw)
    Step-counted (deliver ws ws' o os hw hc) =
        omega
          (arith, counted, weigh_swap active s.workers ws ws' (sending (o ∷ os)) (sending os) hw)
    Step-counted (again ws ws' hw) =
        omega (arith, counted, weigh_swap active s.workers ws ws' (sending []) receiving hw)
    Step-counted (exit ws ws' hw hi) =
        omega (arith, counted, weigh_swap active s.workers ws ws' receiving exited hw)
    Step-counted (finish h z hc) = counted

    Step-Started :
        {t : Pool Any B} → Step parallelism body s t → Started parallelism t.main (length t.workers)
    Step-Started (start h lt) = ground (arith, length-append s.workers (receiving ∷ []))
    Step-Started (all_started h le) = ground arith
    Step-Started (receive ws ws' e es outs hw hi hb) =
        rw (length_swap s.workers ws ws' receiving (sending outs) hw) started
    Step-Started (deliver ws ws' o os hw hc) =
        rw (length_swap s.workers ws ws' (sending (o ∷ os)) (sending os) hw) started
    Step-Started (again ws ws' hw) =
        rw (length_swap s.workers ws ws' (sending []) receiving hw) started
    Step-Started (exit ws ws' hw hi) = rw (length_swap s.workers ws ws' receiving exited hw) started
    Step-Started (finish h z hc) = ground arith

    Step-closing : {t : Pool Any B} → Step parallelism body s t → IsClosed t.main t.wg t.out.closed
    Step-closing (start h lt) = ground arith
    Step-closing (all_started h le) = ground arith
    Step-closing (finish h z hc) = (z, refl)
    Step-closing (deliver ws ws' o os hw hc) = subst_closed s.main s.wg closing hc
      where
        subst_closed :
            (m : Main) (n : ℕ)
            → IsClosed m n s.out.closed
            → s.out.closed ≡ false
            → IsClosed m n false
        subst_closed (starting i) n c e = refl
        subst_closed waiting n c e = refl
        subst_closed finished n c e = cc
    Step-closing (receive ws ws' e es outs hw hi hb) = closing
    Step-closing (again ws ws' hw) = closing
    Step-closing (exit ws ws' hw hi) = ground arith

    Step-drained :
        {t : Pool Any B} → Step parallelism body s t → 0 < weigh gone t.workers → t.input ≡ []
    Step-drained (start h lt) p =
        drained (omega (arith, weigh-append gone s.workers (receiving ∷ [])))
    Step-drained (all_started h le) p = drained p
    Step-drained (receive ws ws' e es outs hw hi hb) p =
        ground (arith, drained, weigh_swap gone s.workers ws ws' receiving (sending outs) hw)
    Step-drained (deliver ws ws' o os hw hc) p =
        drained (omega (arith, weigh_swap gone s.workers ws ws' (sending (o ∷ os)) (sending os) hw))
    Step-drained (again ws ws' hw) p =
        drained (omega (arith, weigh_swap gone s.workers ws ws' (sending []) receiving hw))
    Step-drained (exit ws ws' hw hi) p = hi
    Step-drained (finish h z hc) p = drained p

    Step-accepted :
        {t : Pool Any B}
        → Step parallelism body s t
        → all_accepted body given ≡ true
        → all_accepted body t.input ≡ true
    Step-accepted (receive ws ws' e es outs hw hi hb) h = ground (arith, accepted h)
    Step-accepted (start h' lt) h = accepted h
    Step-accepted (all_started h' le) h = accepted h
    Step-accepted (deliver ws ws' o os hw hc) h = accepted h
    Step-accepted (again ws ws' hw) h = accepted h
    Step-accepted (exit ws ws' hw hi) h = accepted h
    Step-accepted (finish h' z hc) h = accepted h

    produced-cons :
        (e : Any) (es : List Any) (outs : List B)
        → body e ≡ some outs
        → produced body (e ∷ es) ≡ outs ++ produced body es
    produced-cons e es outs hb = ground arith

    Step-bag :
        {t : Pool Any B}
        → Step parallelism body s t
        → (w : B → ℕ)
        → weigh w t.out.history + weigh (load w) t.workers + weigh w (produced body t.input)
          ≡ weigh w (produced body given)
    Step-bag (start h lt) w = omega (arith, bag w, weigh-append (load w) s.workers (receiving ∷ []))
    Step-bag (all_started h le) w = bag w
    Step-bag (receive ws ws' e es outs hw hi hb) w = omega (
      arith,
      bag w,
      weigh_swap (load w) s.workers ws ws' receiving (sending outs) hw,
      ap (λ l. weigh w (produced body l)) hi,
      ap (weigh w) (produced-cons e es outs hb),
      weigh-append w outs (produced body es),
    )
    Step-bag (deliver ws ws' o os hw hc) w = omega (
      arith,
      bag w,
      weigh_swap (load w) s.workers ws ws' (sending (o ∷ os)) (sending os) hw,
      weigh-append w s.out.history (o ∷ []),
    )
    Step-bag (again ws ws' hw) w =
        omega (arith, bag w, weigh_swap (load w) s.workers ws ws' (sending []) receiving hw)
    Step-bag (exit ws ws' hw hi) w =
        omega (arith, bag w, weigh_swap (load w) s.workers ws ws' receiving exited hw)
    Step-bag (finish h z hc) w = bag w

    pub Step-Inv : {t : Pool Any B} → Step parallelism body s t → Inv t
    Step-Inv st = record {
      counted = Step-counted st;
      started = Step-Started st;
      closing = Step-closing st;
      drained = Step-drained st;
      accepted = Step-accepted st;
      bag = Step-bag st;
    }

  pub Reach-Inv : {n : ℕ} {s : Pool Any B} → Reach parallelism body given n s → Inv s
  Reach-Inv here = init-Inv
  Reach-Inv (next r st) = Step-Inv (Reach-Inv r) st
