-- ===== src/Throttler/Delivery.antt =====
-- Which elements a throttler delivers, and in which order (flow/throttler.go).
use go_streams.Prelude.{
  true, some, List, [], ◌∷◌, ◌++◌, ◌≡◌, refl, sym, ◌∙◌, arith, append-nil, append_assoc, ℤ, ◌⊎◌,
  inl, inr, IsSubsequence, IsSubsequence-refl, IsSubsequence-drop,
}
use go_streams.Throttler.{
  ThrottleMode, backpressure, discard, Throttler, new_throttler, Step, read, put, drop, close_queue,
  start_ticker, reset, signal, skip_signal, quit, take, within, exceeded, arrive, admit, forward,
  close_done, close_inlet, Reach, here, next,
}
use go_streams.Throttler.Inv.{
  Control, Reach-Control, new_throttler-Control, line, carried, ingested,
}
use go_streams.Throttler.Quota.{Reach-IsSameSetup}

module _ {Any : Type 0} where
  -- A step leaves the line of elements as it is, or drops one, in the mode for that.
  Step-line :
      {s t : Throttler Any}
      → Step s t
      → (line t ≡ line s)
        ⊎ ((s.mode ≡ discard)
            × ((xs : List Any) × (e : Any) × (ys : List Any) × (line s ≡ xs ++ (e ∷ ys))
                × (line t ≡ xs ++ ys)))
  Step-line {s} (drop {e} h m le) = inr (
    m,
    (
      s.inlet.history ++ (carried s.streamer ++ s.queue),
      e,
      s.input,
      ground (arith, regroup (e ∷ s.input)),
      sym (regroup s.input),
    ),
  )
    where
      regroup :
          (zs : List Any)
          → (s.inlet.history ++ (carried s.streamer ++ s.queue)) ++ zs
            ≡ s.inlet.history ++ (carried s.streamer ++ (s.queue ++ zs))
      regroup zs = simp append_assoc
  Step-line (read h e) = inl (ground arith)
  Step-line {s} (put {e} h lt) = inl (ground (arith, append_assoc s.queue (e ∷ []) s.input))
  Step-line (close_queue h e) = inl (ground arith)
  Step-line (start_ticker h p) = inl refl
  Step-line (reset h) = inl refl
  Step-line (signal h e) = inl (ground arith)
  Step-line (skip_signal h e) = inl refl
  Step-line (quit h e) = inl refl
  Step-line (take h e) = inl (ground arith)
  Step-line (within h e) = inl (ground arith)
  Step-line (exceeded h e) = inl (ground arith)
  Step-line (arrive h) = inl (ground arith)
  Step-line (admit h) = inl (ground arith)
  Step-line {s} (forward {e} h o) = inl (
      ground
        (arith, append_assoc s.inlet.history (e ∷ []) (s.queue ++ (ingested s.ingest ++ s.input))))
  Step-line (close_done h e f) = inl (ground arith)
  Step-line (close_inlet h o) = inl (ground arith)

  IsSubsequence-append : (xs zs ys : List Any) → IsSubsequence (xs ++ zs) ys → IsSubsequence xs ys
  IsSubsequence-append xs [] ys h = rw append-nil at h
  IsSubsequence-append xs (z ∷ zs) ys h =
      IsSubsequence-append xs zs ys (IsSubsequence-drop xs z zs ys h)

  -- What the line is against the elements `given` to the throttler `s`.
  record InOrder (given : List Any) (s t : Throttler Any) : Type 0 where
    some_of : IsSubsequence (line t) given
    all_of : s.mode ≡ backpressure → line t ≡ given

  Step-InOrder :
      {given : List Any} {s t u : Throttler Any}
      → t.mode ≡ s.mode
      → Step t u
      → InOrder given s t
      → InOrder given s u
  Step-InOrder {given} same_mode st before = elim (Step-line st) [
    | inl same ↦ record { some_of = rw same before.some_of; all_of = λ m. same ∙ before.all_of m }
    | inr (discards, (xs, e, ys, was, is)) ↦ record {
      some_of = rw is (IsSubsequence-drop xs e ys given (rw was at before.some_of));
      all_of = λ m. ground (arith, same_mode);
    }
  ]

  Reach-InOrder :
      {given : List Any} {s t : Throttler Any} → InOrder given s s → Reach s t → InOrder given s t
  Reach-InOrder o here = o
  Reach-InOrder o (next r st) = Step-InOrder (Reach-IsSameSetup r).same_mode st (Reach-InOrder o r)

  new_throttler-InOrder :
      (elements : ℤ) (period : ℤ) (size : ℤ) (mode : ThrottleMode) (given : List Any)
      {s : Throttler Any}
      → new_throttler elements period size mode given ≡ some s
      → (line s ≡ given) × (s.mode ≡ mode)
  unfolding new_throttler
  new_throttler-InOrder elements period size mode given made = ground arith

  closed-line : {t : Throttler Any} → Control t → t.inlet.closed ≡ true → line t ≡ t.inlet.history
  closed-line {t} c h = ground (arith, append-nil t.inlet.history)

  Reach-given :
      (elements : ℤ) (period : ℤ) (size : ℤ) (mode : ThrottleMode) (given : List Any)
      {s t : Throttler Any}
      → new_throttler elements period size mode given ≡ some s
      → Reach s t
      → InOrder given s t
  Reach-given elements period size mode given made r =
      let (all, _) = new_throttler-InOrder elements period size mode given made in
      Reach-InOrder (record { some_of = rw all (IsSubsequence-refl given); all_of = λ _. all }) r

  -- In every state that a throttler can reach, in any mode, the elements delivered are some of those
  -- given, in their order.
  pub delivers-IsSubsequence :
      (elements : ℤ) (period : ℤ) (size : ℤ) (mode : ThrottleMode) (given : List Any)
      {s t : Throttler Any}
      → new_throttler elements period size mode given ≡ some s
      → Reach s t
      → IsSubsequence t.inlet.history given
  delivers-IsSubsequence elements period size mode given {s} {t} made r =
      IsSubsequence-append t.inlet.history _ given
        (Reach-given elements period size mode given made r).some_of

  -- In the mode `Backpressure`, once the inlet is closed, the elements delivered are all of those
  -- given, in their order.
  pub delivers_all :
      (elements : ℤ) (period : ℤ) (size : ℤ) (given : List Any) {s t : Throttler Any}
      → new_throttler elements period size backpressure given ≡ some s
      → Reach s t
      → t.inlet.closed ≡ true
      → t.inlet.history ≡ given
  delivers_all elements period size given made r h =
      sym (
        closed-line
          (Reach-Control (new_throttler-Control elements period size backpressure given made) r) h)
      ∙ (Reach-given elements period size backpressure given made r).all_of
          ((new_throttler-InOrder elements period size backpressure given made).1)
