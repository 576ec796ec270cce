-- ===== src/Pipeline/Remains.antt =====
-- What a chain of goroutines (the `Via` of streams.go) has still to send on its last channel, and that
-- no step changes it.
use go_streams.Prelude.{true, none, some, List, [], ◌∷◌, ◌++◌, ◌≡◌, refl, ap, ◌∙◌, arith}
use go_streams.Pipeline.{
  Operator, ranging, closed, sending, finishing, Chain, source, spent, via, Gives, source_gives,
  send, send_last, is_closed, Step, close_source, inner, receive, again, finish, close_out,
}

module _ {Any : Type 0} (op : Operator Any) where
  -- An operator as a function on lists: what it sends for all elements that its input delivers.
  abbrev pub outputs : op.State → List Any → List Any
  outputs s [] = op.flush s
  outputs s (e ∷ es) = elim (op.react s e) [ none ↦ [] | some (s', outs) ↦ outs ++ outputs s' es ]

  pub outputs-cons :
      {s s' : op.State} {e : Any} {outs : List Any} (es : List Any)
      → op.react s e ≡ some (s', outs)
      → outputs s (e ∷ es) ≡ outs ++ outputs s' es
  outputs-cons es h = ground arith

module _ {Any : Type 0} where
  abbrev pub remains : Chain Any → List Any
  remains (source es) = es
  remains spent = []
  remains (via up op s ranging) = outputs op s (remains up)
  remains (via up op s (sending outs)) = outs ++ outputs op s (remains up)
  remains (via up op s (finishing outs)) = outs
  remains (via up op s closed) = []

  pub is_closed-remains : (c : Chain Any) → is_closed c ≡ true → remains c ≡ []
  is_closed-remains (source es) h = cc
  is_closed-remains spent h = refl
  is_closed-remains (via up op s ranging) h = cc
  is_closed-remains (via up op s (sending outs)) h = cc
  is_closed-remains (via up op s (finishing outs)) h = cc
  is_closed-remains (via up op s closed) h = refl

  pub Gives-remains : {c c' : Chain Any} {e : Any} → Gives c e c' → remains c ≡ e ∷ remains c'
  Gives-remains source_gives = refl
  Gives-remains send = refl
  Gives-remains send_last = refl

  pub Step-remains : {c c' : Chain Any} → Step c c' → remains c ≡ remains c'
  Step-remains close_source = refl
  Step-remains (inner {op} {s} {m = ranging} h) = ap (outputs op s) (Step-remains h)
  Step-remains (inner {op} {s} {m = sending outs} h) =
      ap (λ l. outs ++ outputs op s l) (Step-remains h)
  Step-remains (inner {m = finishing outs} h) = refl
  Step-remains (inner {m = closed} h) = refl
  Step-remains (receive {op} {s} g r) = ap (outputs op s) (Gives-remains g) ∙ outputs-cons op _ r
  Step-remains again = refl
  Step-remains (finish {up} h) = rw (is_closed-remains up h)
  Step-remains close_out = refl
