-- ===== src/Split/Laws.antt =====
-- What `Split` sends to its two flows (flow/util.go).
use go_streams.Prelude.{
  Bool, true, false, not, Option, none, some, List, [], ◌∷◌, ◌++◌, ◌≡◌, arith, append-nil,
  append_assoc, keep, inl, inr, Option-cases, Bool-cases,
}
use go_streams.Channel.{Outcome, ok, panic, bad_assertion}
use go_streams.Split.{Branches, make_branches, split}

module _ {Any T : Type 0} (assert : Any → Option T) (predicate : T → Bool) where
  -- The elements before the first that is no `T`.
  abbrev pub accepted : List Any → List Any
  accepted [] = []
  accepted (e ∷ es) = elim (assert e) [ none ↦ [] | some t ↦ e ∷ accepted es ]

  abbrev pub all_accepted : List Any → Bool
  all_accepted [] = true
  all_accepted (e ∷ es) = elim (assert e) [ none ↦ false | some t ↦ all_accepted es ]

  abbrev pub matches : Any → Bool
  matches e = elim (assert e) [ none ↦ false | some t ↦ predicate t ]

  abbrev branches : Bool → List Any → List Any → Branches Any
  branches closed h h' = record {
    cond_true = record { history = h; closed = closed };
    cond_false = record { history = h'; closed = closed };
  }

  abbrev pub split_end : Bool → List Any → List Any → Outcome (Branches Any)
  split_end true h h' = ok (branches true h h')
  split_end false h h' = panic bad_assertion (branches false h h')

  split_from :
      (es h h' : List Any)
      → split assert predicate es (branches false h h')
        ≡ split_end
            (all_accepted es)
            (h ++ keep matches (accepted es))
            (h' ++ keep (λ e. not (matches e)) (accepted es))
  unfolding split
  split_from [] h h' = ground (arith, append-nil h, append-nil h')
  split_from (e ∷ es) h h' = elim (Option-cases (assert e)) [
    | inl bad ↦ ground (arith, append-nil h, append-nil h')
    | inr (t, good) ↦ elim (Bool-cases (predicate t)) [
      | inl yea ↦ ground (
        arith,
        split_from es (h ++ (e ∷ [])) h',
        append_assoc h (e ∷ []) (keep matches (accepted es)),
      )
      | inr nay ↦ ground (
        arith,
        split_from es h (h' ++ (e ∷ [])),
        append_assoc h' (e ∷ []) (keep (λ x. not (matches x)) (accepted es)),
      )
    ]
  ]

  -- `Split` sends each element to exactly one of its flows, in order: to the first those that match
  -- the predicate, to the second the others; then it closes both. On the first element of another
  -- type it panics, with both flows open.
  pub split_lem :
      (es : List Any)
      → split assert predicate es make_branches
        ≡ split_end
            (all_accepted es)
            (keep matches (accepted es))
            (keep (λ e. not (matches e)) (accepted es))
  split_lem es = split_from es [] []
