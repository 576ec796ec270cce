-- ===== src/Compose/SplitMerge.antt =====
-- A Split whose two flows are merged again (flow/util.go).
use go_streams.Prelude.{
  ℕ, ◌+◌, true, Bool, false, not, Option, List, [], ◌∷◌, ◌++◌, ◌≡◌, refl, ap, arith, keep, weigh,
  weigh-append, SameBag,
}
use go_streams.Channel.{ok}
use go_streams.Split.{Branches, make_branches, split}
use go_streams.Split.Laws.{accepted, all_accepted, matches, split_lem}
use go_streams.Merge.{Merge, init, Reach}
use go_streams.Merge.Laws.{merge_complete}

module _ {ℓ} {A : Type ℓ} (p : A → Bool) where
  -- What is kept and what is not, together.
  weigh-keep :
      (w : A → ℕ) (xs : List A)
      → weigh w (keep p xs) + weigh w (keep (λ x. not (p x)) xs) ≡ weigh w xs
  weigh-keep w [] = refl
  weigh-keep w (x ∷ xs) = ground (arith, weigh-keep w xs)

module _ {Any T : Type 0} (assert : Any → Option T) (predicate : T → Bool) where
  accepted-all :
      (es : List Any) → all_accepted assert predicate es ≡ true → accepted assert predicate es ≡ es
  accepted-all [] h = refl
  accepted-all (e ∷ es) h = ground (arith, accepted-all es)

  -- Where a Split came to its end, on all elements: what its two flows have received.
  split-ok :
      (es : List Any) {b : Branches Any}
      → split assert predicate es make_branches ≡ ok b
      → (b.cond_true.history ≡ keep (matches assert predicate) es)
        × (b.cond_false.history ≡ keep (λ e. not (matches assert predicate e)) es)
  split-ok es {b} ran = by_end (all_accepted assert predicate es) refl
    where
      by_end :
          (c : Bool)
          → all_accepted assert predicate es ≡ c
          → (b.cond_true.history ≡ keep (matches assert predicate) es)
            × (b.cond_false.history ≡ keep (λ e. not (matches assert predicate e)) es)
      by_end true e = ground (arith, ran, split_lem assert predicate es, accepted-all es e)
      by_end false e = ground (arith, ran, split_lem assert predicate es)

  -- What a Split has divided a Merge of its two flows brings together: when the Split has come to its
  -- end and the Merge has closed its flow, after any interleaving, that flow has received
  -- every element exactly as often as the Split was given it.
  pub split-merge :
      (es : List Any) {b : Branches Any} {s : Merge Any}
      → split assert predicate es make_branches ≡ ok b
      → Reach (init (b.cond_true.history ∷ b.cond_false.history ∷ [])) s
      → s.merged.closed ≡ true
      → SameBag s.merged.history es
  split-merge es {b} ran run closed w =
      let (yes_flow, no_flow) = split-ok es ran in
      omega (
        arith,
        merge_complete (b.cond_true.history ∷ b.cond_false.history ∷ []) run closed w,
        weigh-append w b.cond_true.history (b.cond_false.history ++ []),
        weigh-append w b.cond_false.history [],
        weigh-keep (matches assert predicate) w es,
        ap (weigh w) yes_flow,
        ap (weigh w) no_flow,
      )
