-- ===== src/Pipeline/Safe.antt =====
-- When no goroutine of a chain panics (the `Via` of streams.go): every operator accepts all that the
-- one behind it sends.
use go_streams.Prelude.{Bool, true, false, none, some, List, [], ◌∷◌, ◌≡◌, arith, ap, sym, ◌∙◌}
use go_streams.Pipeline.{
  Operator, ranging, closed, sending, finishing, Chain, source, spent, via, Gives, source_gives,
  send, send_last, Step, close_source, inner, receive, again, finish, close_out, Crash, inner_crash,
  bad_element,
}
use go_streams.Pipeline.Remains.{remains, Gives-remains, Step-remains}

module _ {Any : Type 0} (op : Operator Any) where
  -- No element makes the operator panic, from the state `s`.
  abbrev pub accepts : op.State → List Any → Bool
  accepts s [] = true
  accepts s (e ∷ es) = elim (op.react s e) [ none ↦ false | some (s', outs) ↦ accepts s' es ]

module _ {Any : Type 0} where
  abbrev pub IsSafe : Chain Any → Type 0
  IsSafe (source es) = Unit
  IsSafe spent = Unit
  IsSafe (via up op s ranging) = IsSafe up × (accepts op s (remains up) ≡ true)
  IsSafe (via up op s (sending outs)) = IsSafe up × (accepts op s (remains up) ≡ true)
  IsSafe (via up op s (finishing outs)) = IsSafe up
  IsSafe (via up op s closed) = IsSafe up

  pub Gives-IsSafe : {c c' : Chain Any} {e : Any} → Gives c e c' → IsSafe c → IsSafe c'
  Gives-IsSafe source_gives h = tt
  Gives-IsSafe send h = h
  Gives-IsSafe send_last h = h

  pub Step-IsSafe : {c c' : Chain Any} → Step c c' → IsSafe c → IsSafe c'
  Step-IsSafe close_source h = tt
  Step-IsSafe (inner {op} {s} {m = ranging} r) h =
      (Step-IsSafe r h.0, ap (accepts op s) (sym (Step-remains r)) ∙ h.1)
  Step-IsSafe (inner {op} {s} {m = sending outs} r) h =
      (Step-IsSafe r h.0, ap (accepts op s) (sym (Step-remains r)) ∙ h.1)
  Step-IsSafe (inner {m = finishing outs} r) h = Step-IsSafe r h
  Step-IsSafe (inner {m = closed} r) h = Step-IsSafe r h
  Step-IsSafe (receive g r) h = (Gives-IsSafe g h.0, ground (arith, h.1, Gives-remains g, r))
  Step-IsSafe again h = h
  Step-IsSafe (finish c) h = h.0
  Step-IsSafe close_out h = h

  pub IsSafe-no-Crash : {c : Chain Any} → IsSafe c → ¬ Crash c
  IsSafe-no-Crash h (inner_crash {m = ranging} k) = IsSafe-no-Crash h.0 k
  IsSafe-no-Crash h (inner_crash {m = sending outs} k) = IsSafe-no-Crash h.0 k
  IsSafe-no-Crash h (inner_crash {m = finishing outs} k) = IsSafe-no-Crash h k
  IsSafe-no-Crash h (inner_crash {m = closed} k) = IsSafe-no-Crash h k
  IsSafe-no-Crash h (bad_element g bad) = ground (arith, h.1, Gives-remains g, bad)
