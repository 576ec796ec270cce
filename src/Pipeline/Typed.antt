-- ===== src/Pipeline/Typed.antt =====
-- The types of a chain (the `Via` of streams.go): channels are of `any`, and an operator asserts the type
-- of each element, so that a program fits together if every operator is given what the one
-- behind it makes.
pub mod Links
use go_streams.Prelude.{
  ℕ, true, Option, none, some, List, [], ◌∷◌, ◌++◌, ◌≡◌, ◌⊎◌, inl, inr, refl, ap, sym, ◌∙◌, arith,
  All, All-append,
}
use mathlib.Core.Path.{subst}
use go_streams.Pipeline.{Operator, ranging, Chain, source, via, Crash, Program, start, Run, Runs}
use go_streams.Pipeline.Remains.{outputs, outputs-cons, remains}
use go_streams.Pipeline.Safe.{accepts, IsSafe}
use go_streams.Pipeline.Laws.{program_left, pipeline_complete}

module _ {Any : Type 0} where
  -- An operator that makes elements of type `Out` from elements of type `In` without a panic, as long as
  -- its variables are good, which they stay.
  pub record HasType (In Out : Any → Type 0) (op : Operator Any) : Type 1 where
    pub Good : op.State → Type 0
    pub react_type :
        (s : op.State) (e : Any)
        → Good s
        → In e
        → (s' : op.State) × (outs : List Any) × (op.react s e ≡ some (s', outs))
          × Good s'
          × All Out outs
    pub flush_type : (s : op.State) → Good s → All Out (op.flush s)

  -- A chain at its start whose operators fit, with the type of what it delivers.
  pub data Typed : Chain Any → (Any → Type 0) → Type 1 where
    source_typed : {Out : Any → Type 0} {es : List Any} → All Out es → Typed (source es) Out
    via_typed :
        {In Out : Any → Type 0} {up : Chain Any} {op : Operator Any} {s : op.State}
        (t : HasType In Out op)
        → Typed up In
        → t.Good s
        → Typed (via up op s ranging) Out

  module _ {In Out : Any → Type 0} {op : Operator Any} (t : HasType In Out op) where
    outputs-All : (s : op.State) (es : List Any) → t.Good s → All In es → All Out (outputs op s es)
    outputs-All s [] good typed = t.flush_type s good
    outputs-All s (e ∷ es) good typed =
        let (s', outs, step, good', made) = t.react_type s e good typed.0 in
        subst (All Out) (sym (outputs-cons op es step))
          (All-append Out outs (outputs op s' es) made (outputs-All s' es good' typed.1))

    accepts-All : (s : op.State) (es : List Any) → t.Good s → All In es → accepts op s es ≡ true
    accepts-All s [] good typed = refl
    accepts-All s (e ∷ es) good typed =
        let (s', outs, step, good', made) = t.react_type s e good typed.0 in
        ground (arith, step, accepts-All s' es good' typed.1)

  Typed-remains :
      {c : Chain Any} {Out : Any → Type 0} → Typed c Out → IsSafe c × All Out (remains c)
  Typed-remains (source_typed all) = (tt, all)
  Typed-remains (via_typed {s} t up good) =
      let (safe, all) = Typed-remains up in
      ((safe, accepts-All t s _ good all), outputs-All t s _ good all)

  -- A program whose operators fit never panics on a type, under any interleaving of its goroutines; all
  -- that its sink receives is of the type of its last operator; and it can go on until the sink is done.
  pub typed_pipeline :
      {c : Chain Any} {Out : Any → Type 0} {k : ℕ} {p : Program Any}
      → Typed c Out
      → Runs k (start c) p
      → (¬ Crash p.chain) × All Out p.sunk × ((p.done ≡ true) ⊎ ((q : Program Any) × Run p q))
  typed_pipeline {c} {Out} {p} typed run =
      let (safe, all) = Typed-remains typed in
      let (_, no_crash, together, result) = pipeline_complete c safe run in
      (
        no_crash,
        All-prefix Out p.sunk (remains p.chain) (subst (All Out) (sym together) all),
        elim result [ inl (d, got) ↦ inl d | inr q ↦ inr q ],
      )
    where
      All-prefix : (P : Any → Type 0) (xs ys : List Any) → All P (xs ++ ys) → All P xs
      All-prefix P [] ys h = tt
      All-prefix P (x ∷ xs) ys h = (h.0, All-prefix P xs ys h.1)
