-- ===== src/Windowing/Laws.antt =====
-- What follows from the promise of a windowing operator alone.
use go_streams.Prelude.{
  true, List, [], ◌∷◌, ◌++◌, ◌≡◌, ◌≢◌, ◌⊎◌, inl, inr, refl, sym, ◌∙◌, arith, append_assoc,
  append-nil, All, All-append, concat, concat-snoc,
}
use mathlib.Core.Path.{subst}
use go_streams.Windowing.{
  Windowing, start, Move, arrive, emit, conclude, Moves, none_yet, then_move,
}

module _ {T : Type 0} where
  -- The same in every field.
  pub record Same (s t : Windowing T) : Type 0 where
    pub same_incoming : t.incoming ≡ s.incoming
    pub same_pending : t.pending ≡ s.pending
    pub same_emitted : t.emitted ≡ s.emitted
    pub same_ended : t.ended ≡ s.ended

  pub Moves-Same : {s t u : Windowing T} → Moves s t → Same t u ⊎ Move t u → Moves s u
  Moves-Same {s} {t} {u} ms (inl same) = subst (Moves s) (sym path) ms
    where
      open same use {same_incoming, same_pending, same_emitted, same_ended}

      path : u ≡ t
      path = λ i. record {
        incoming = same_incoming i;
        pending = same_pending i;
        emitted = same_emitted i;
        ended = same_ended i;
      }
  Moves-Same ms (inr m) = then_move ms m

  -- Between two moves.
  pub record Kept (elements : List T) (s : Windowing T) : Type 0 where
    pub all : concat s.emitted ++ (s.pending ++ s.incoming) ≡ elements
    pub nonempty : All (λ w. w ≢ []) s.emitted
    pub over : s.ended ≡ true → (s.incoming ≡ []) × (s.pending ≡ [])

  Move-Kept : {elements : List T} {s t : Windowing T} → Move s t → Kept elements s → Kept elements t
  Move-Kept {elements} {s} {t} (arrive {e} i p m d) k = record {
    all = ground (arith, k.all, append_assoc s.pending (e ∷ []) t.incoming);
    nonempty = subst (All (λ w. w ≢ [])) (sym m) k.nonempty;
    over = λ h. ground (arith, k.over);
  }
  Move-Kept {elements} {s} {t} (emit {window} ne p m i d d') k = record {
    all = ground (
      arith,
      k.all,
      concat-snoc s.emitted window,
      append_assoc (concat s.emitted) window (t.pending ++ t.incoming),
      append_assoc window t.pending t.incoming,
    );
    nonempty =
        subst (All (λ w. w ≢ [])) (sym m)
          (All-append (λ w. w ≢ []) s.emitted (window ∷ []) k.nonempty (ne, tt));
    over = λ h. cc (h, d');
  }
  Move-Kept {elements} {s} {t} (conclude i p i' p' m d d') k = record {
    all = ground (arith, k.all);
    nonempty = subst (All (λ w. w ≢ [])) (sym m) k.nonempty;
    over = λ h. (i', p');
  }

  Moves-Kept : {elements : List T} {s : Windowing T} → Moves (start elements) s → Kept elements s
  Moves-Kept none_yet = record { all = refl; nonempty = tt; over = λ h. (cc h, refl) }
  Moves-Kept (then_move ms m) = Move-Kept m (Moves-Kept ms)

  -- Whatever the cuts, at its end a windowing operator has emitted its elements in their order, in
  -- windows that are not empty.
  ended-concat :
      {elements : List T} {s : Windowing T}
      → Moves (start elements) s
      → s.ended ≡ true
      → (concat s.emitted ≡ elements) × All (λ w. w ≢ []) s.emitted
  ended-concat {elements} {s} ms h =
      let k = Moves-Kept ms in
      let (i, p) = k.over h in
      (sym (append-nil (concat s.emitted)) ∙ (rw (i, p) at k.all), k.nonempty)
