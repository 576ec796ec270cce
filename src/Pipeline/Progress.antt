-- ===== src/Pipeline/Progress.antt =====
-- How far a chain of goroutines (the `Via` of streams.go) is from its end: each step brings it one step
-- nearer, and until the end some goroutine can go on.
use go_streams.Prelude.{
  ℕ, suc, ◌+◌, ◌*◌, true, [], ◌∷◌, ◌≡◌, inl, inr, refl, ap, arith, length, Option-cases,
}
use go_streams.Pipeline.{
  Operator, ranging, closed, sending, finishing, Chain, source, spent, via, Gives, source_gives,
  send, send_last, is_closed, Step, close_source, inner, receive, again, finish, close_out, Crash,
  inner_crash, bad_element,
}
use go_streams.Pipeline.Remains.{remains, is_closed-remains, Gives-remains, Step-remains}

module _ {Any : Type 0} where
  -- The steps inside a chain until all its channels are closed.
  abbrev pub steps_left : Chain Any → ℕ
  steps_left (source es) = 1
  steps_left spent = 0
  steps_left (via up op s ranging) = steps_left up + (2 * length (remains up) + 2)
  steps_left (via up op s (sending outs)) = steps_left up + (2 * length (remains up) + 3)
  steps_left (via up op s (finishing outs)) = steps_left up + (2 * length (remains up) + 1)
  steps_left (via up op s closed) = steps_left up + 2 * length (remains up)

  pub Gives-steps_left : {c c' : Chain Any} {e : Any} → Gives c e c' → steps_left c ≡ steps_left c'
  Gives-steps_left source_gives = refl
  Gives-steps_left send = refl
  Gives-steps_left send_last = refl

  pub Step-steps_left : {c c' : Chain Any} → Step c c' → steps_left c ≡ suc (steps_left c')
  Step-steps_left close_source = refl
  Step-steps_left (inner {m = ranging} h) =
      omega (arith, Step-steps_left h, ap length (Step-remains h))
  Step-steps_left (inner {m = sending outs} h) =
      omega (arith, Step-steps_left h, ap length (Step-remains h))
  Step-steps_left (inner {m = finishing outs} h) =
      omega (arith, Step-steps_left h, ap length (Step-remains h))
  Step-steps_left (inner {m = closed} h) =
      omega (arith, Step-steps_left h, ap length (Step-remains h))
  Step-steps_left (receive g r) = omega (arith, Gives-steps_left g, ap length (Gives-remains g))
  Step-steps_left again = omega arith
  Step-steps_left (finish {up} h) = omega (arith, ap length (is_closed-remains up h))
  Step-steps_left close_out = omega arith

  -- What the last goroutine of a chain can do for the one behind it.
  pub data Ready (c : Chain Any) : Type 1 where
    is_over : is_closed c ≡ true → Ready c
    gives : (e : Any) (c' : Chain Any) → Gives c e c' → Ready c
    steps : (c' : Chain Any) → Step c c' → Ready c
    crashes : Crash c → Ready c

  react-Ready :
      {up up' : Chain Any} {op : Operator Any} {s : op.State} {e : Any}
      → Gives up e up'
      → Ready (via up op s ranging)
  react-Ready {op} {s} {e} g = elim (Option-cases (op.react s e)) [
    | inl bad ↦ crashes (bad_element g bad)
    | inr ((s', outs), good) ↦ steps _ (receive g good)
  ]

  pub ready : (c : Chain Any) → Ready c
  ready (source []) = steps spent close_source
  ready (source (e ∷ es)) = gives e (source es) source_gives
  ready spent = is_over refl
  ready (via up op s ranging) = elim (ready up) [
    | is_over h ↦ steps _ (finish h)
    | gives e up' g ↦ react-Ready g
    | steps up' h ↦ steps _ (inner h)
    | crashes h ↦ crashes (inner_crash h)
  ]
  ready (via up op s (sending [])) = steps _ again
  ready (via up op s (sending (e ∷ es))) = gives e _ send
  ready (via up op s (finishing [])) = steps _ close_out
  ready (via up op s (finishing (e ∷ es))) = gives e _ send_last
  ready (via up op s closed) = is_over refl
