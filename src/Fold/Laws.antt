-- ===== src/Fold/Laws.antt =====
-- What a Fold sends (flow/fold.go).
use go_streams.Prelude.{
  ℕ, zero, suc, ◌<◌, false, Option, some, List, [], ◌∷◌, ◌++◌, ◌≡◌, refl, ap, foldl, append-nil,
  append_assoc, arith, length, get_elem?, take, inl, inr, Option-cases,
}
use go_streams.Channel.{make_chan, conclude, sent, sent-conclude}
use go_streams.Element.{typed_prefix, all_typed}
use go_streams.Fold.{Fold, fold_loop, stream}

module _ {T R : Type 0} (f : T → R → R) where
  -- The values after one, two, … elements.
  abbrev pub rolling : R → List T → List R
  rolling r [] = []
  rolling r (t ∷ ts) = f t r ∷ rolling (f t r) ts

  rolling-get_elem? :
      (r : R) (ts : List T) (i : ℕ)
      → i < length ts
      → get_elem? (rolling r ts) i ≡ some (foldl (λ acc t. f t acc) r (take (suc i) ts))
  rolling-get_elem? r [] i h = elim h [ ]
  rolling-get_elem? r (t ∷ ts) zero h = refl
  rolling-get_elem? r (t ∷ ts) (suc i) h = rolling-get_elem? (f t r) ts i (omega arith)

  length-rolling : (r : R) (ts : List T) → length (rolling r ts) ≡ length ts
  length-rolling r [] = refl
  length-rolling r (t ∷ ts) = ap suc (length-rolling (f t r) ts)

module _ {Any T R : Type 0} (assert : Any → Option T) (m : Fold T R) where
  open m use {init, fold_function}

  abbrev outs : R → List Any → List R
  outs r es = rolling fold_function r (typed_prefix assert es)

  fold_loop_lem :
      (r : R) (es : List Any) (h : List R)
      → fold_loop assert m r es (record { history = h; closed = false })
        ≡ conclude (all_typed assert es) (h ++ outs r es)
  unfolding fold_loop
  fold_loop_lem r [] h = rw append-nil
  fold_loop_lem r (e ∷ es) h = elim (Option-cases (assert e)) [
    | inl bad ↦ ground (arith, append-nil h)
    | inr (t, good) ↦
        let r' = fold_function t r in
        ground (arith, fold_loop_lem r' es (h ++ r' ∷ []), append_assoc h (r' ∷ []) (outs r' es))
  ]

  -- `stream` sends the rolling values of the elements up to the first that is no `T`, one for each;
  -- it closes the output if there is none such, and panics on it otherwise, with the output open.
  pub stream-rolling :
      (es : List Any)
      → (stream assert m es make_chan ≡ conclude (all_typed assert es) (outs init es))
        × (length (outs init es) ≡ length (typed_prefix assert es))
  unfolding stream
  stream-rolling es =
      (fold_loop_lem init es [], length-rolling fold_function init (typed_prefix assert es))

  -- The value that `stream` sends for element `i`, if all elements up to it are of type `T`, is the
  -- fold of the elements 0 to `i`, in order, from `init`.
  stream-foldl :
      (es : List Any) (i : ℕ)
      → i < length (typed_prefix assert es)
      → get_elem? (sent (stream assert m es make_chan)) i
        ≡ some (foldl (λ acc t. fold_function t acc) init (take (suc i) (typed_prefix assert es)))
  unfolding stream
  stream-foldl es i h =
      rw (fold_loop_lem init es [], sent-conclude) (rolling-get_elem? fold_function init _ i h)
