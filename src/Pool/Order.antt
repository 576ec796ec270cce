-- ===== src/Pool/Order.antt =====
-- With one worker the order of the elements is kept.
use go_streams.Prelude.{
  ℕ, ◌≤◌, true, Option, List, [], ◌∷◌, ◌++◌, ◌≡◌, refl, sym, ap, ◌∙◌, arith, length, length-append,
  weigh, append-nil, append_assoc,
}
use go_streams.Pool.{
  Worker, receiving, sending, exited, Main, starting, waiting, finished, Pool, Step, start,
  all_started, receive, deliver, again, exit, finish, Reach, here, next,
}
use go_streams.Pool.Inv.{produced, Started, Inv, Reach-Inv, active}
use go_streams.Pool.Laws.{closed-finished, closed_complete}

module _ {B : Type 0} where
  -- What the workers still send, one after the other.
  abbrev pending : List (Worker B) → List B
  pending [] = []
  pending (sending os ∷ ws) = os ++ pending ws
  pending (_ ∷ ws) = pending ws

  length-le_one :
      (xs ws ws' : List (Worker B)) (a : Worker B)
      → length xs ≤ 1
      → xs ≡ ws ++ (a ∷ ws')
      → (ws ≡ []) × (ws' ≡ []) × (xs ≡ a ∷ [])
  length-le_one xs [] [] a h e = (refl, refl, e)
  length-le_one xs [] (b ∷ ws') a h e = absurd (omega (arith, ap length e))
  length-le_one xs (b ∷ ws) ws' a h e =
      absurd (omega (arith, ap length e, length-append ws (a ∷ ws')))

module _ {Any B : Type 0} (body : Any → Option (List B)) (given : List Any) where
  -- Sent, then held by the worker, then still to be read.
  abbrev IsOrdered : Pool Any B → Type 0
  IsOrdered s = s.out.history ++ (pending s.workers ++ produced body s.input) ≡ produced body given

  few_workers : {s : Pool Any B} → Inv 1 body given s → length s.workers ≤ 1
  few_workers {s} inv = by_main s.main inv.started
    where
      by_main : (m : Main) → Started 1 m (length s.workers) → length s.workers ≤ 1
      by_main (starting i) h = omega arith
      by_main waiting h = omega arith
      by_main finished h = omega arith

  module _ {s : Pool Any B} (inv : Inv 1 body given s) (ordered : IsOrdered s) where
    -- The one worker passes from `a` to `b`; what stands before it is unchanged.
    with_one :
        (ws ws' : List (Worker B)) (a b : Worker B)
        → s.workers ≡ ws ++ (a ∷ ws')
        → (ws ++ (b ∷ ws') ≡ b ∷ []) × (s.workers ≡ a ∷ [])
    with_one ws ws' a b hw =
        let (no_ws, no_ws', one) = length-le_one s.workers ws ws' a (few_workers inv) hw in
        (rw (no_ws, no_ws'), one)

    pending-snoc : (ws : List (Worker B)) → pending (ws ++ (receiving ∷ [])) ≡ pending ws
    pending-snoc [] = refl
    pending-snoc (receiving ∷ ws) = pending-snoc ws
    pending-snoc (sending os ∷ ws) = ap (λ l. os ++ l) (pending-snoc ws)
    pending-snoc (exited ∷ ws) = pending-snoc ws

    Step-IsOrdered : {t : Pool Any B} → Step 1 body s t → IsOrdered t
    Step-IsOrdered (start h lt) = rw (pending-snoc s.workers) ordered
    Step-IsOrdered (all_started h le) = ordered
    Step-IsOrdered (receive ws ws' e es outs hw hi hb) =
        let (after, before) = with_one ws ws' receiving (sending outs) hw in
        rw after (ground (arith, append-nil outs, rw (before, hi) at ordered))
    Step-IsOrdered (deliver ws ws' o os hw hc) =
        let (after, before) = with_one ws ws' (sending (o ∷ os)) (sending os) hw in
        rw after (
          ground (
            arith,
            rw before at ordered,
            append_assoc s.out.history (o ∷ []) ((os ++ []) ++ produced body s.input),
          ))
    Step-IsOrdered (again ws ws' hw) =
        let (after, before) = with_one ws ws' (sending []) receiving hw in
        rw after (rw before at ordered)
    Step-IsOrdered (exit ws ws' hw hi) =
        let (after, before) = with_one ws ws' receiving exited hw in rw after (rw before at ordered)
    Step-IsOrdered (finish h z hc) = ordered

  Reach-IsOrdered : {n : ℕ} {s : Pool Any B} → Reach 1 body given n s → IsOrdered s
  Reach-IsOrdered here = refl
  Reach-IsOrdered (next r st) = Step-IsOrdered (Reach-Inv 1 body given r) (Reach-IsOrdered r) st

  pending-nil : (ws : List (Worker B)) → weigh active ws ≡ 0 → pending ws ≡ []
  pending-nil [] h = refl
  pending-nil (receiving ∷ ws) h = absurd (omega arith)
  pending-nil (sending os ∷ ws) h = absurd (omega arith)
  pending-nil (exited ∷ ws) h = pending-nil ws (omega arith)

  -- With one worker, a closed output holds everything in the order of the elements.
  pub closed_ordered :
      {n : ℕ} {s : Pool Any B}
      → Reach 1 body given n s
      → s.out.closed ≡ true
      → s.out.history ≡ produced body given
  closed_ordered {s} r h =
      sym (append-nil s.out.history)
      ∙ rw
          (
            pending-nil s.workers (omega (arith, inv.counted, (closed-finished inv h).1)),
            (closed_complete inv (omega arith) h).0,
          )
          at (Reach-IsOrdered r)
    where
      inv : Inv 1 body given s
      inv = Reach-Inv 1 body given r
