-- ===== src/Throttler/Overshoot.antt =====
-- How one element more than the quota passes between two resets (flow/throttler.go).
use mathlib.Core.Path.{subst}
use go_streams.Prelude.{
  ℕ, suc, ◌+◌, ◌≤◌, ◌<◌, Bool, true, false, some, List, [], ◌∷◌, ◌++◌, ◌≡◌, refl, arith, length,
  append-nil, append_assoc, ℤ, pos, magnitude, nonpositive,
}
use go_streams.Throttler.{
  ThrottleMode, reading, ticking, notifying, ranging, Throttler, initial, new_throttler, Step, read,
  put, start_ticker, reset, signal, take, within, exceeded, arrive, admit, forward,
}

module _ {Any : Type 0} where
  -- The step that sets the counter to 0.
  abbrev pub is_reset : {s t : Throttler Any} → Step s t → Bool
  is_reset (reset h) = true
  is_reset _ = false

  -- A run without a reset.
  pub data Quiet (s : Throttler Any) : Throttler Any → Type 0 where
    still : Quiet s s
    onward : {t u : Throttler Any} → Quiet s t → (st : Step t u) → is_reset st ≡ false → Quiet s u

  Quiet-trans : {s t u : Throttler Any} → Quiet s t → Quiet t u → Quiet s u
  Quiet-trans p still = p
  Quiet-trans p (onward q st h) = onward (Quiet-trans p q) st h

  module _ (s : Throttler Any) where
    -- Right after a reset, with `k` elements counted and the signal still to be sent.
    abbrev midway : ℕ → List Any → List Any → Throttler Any
    midway k sent rest = record s {
      counter = k;
      input = rest;
      queue = [];
      inlet = record { history = sent; closed = false };
      ingest = reading;
      resetter = notifying;
      streamer = ranging;
    }

    -- One element goes all the way while the reset is still to be signalled.
    pass_one :
        (k : ℕ) (sent : List Any) (e : Any) (rest : List Any)
        → 1 ≤ s.buffer_size
        → k < s.max_elements
        → Quiet (midway k sent (e ∷ rest)) (midway (k + 1) (sent ++ (e ∷ [])) rest)
    pass_one k sent e rest room lt =
        onward
          (onward
            (onward
              (onward (onward (onward still (read refl refl) refl) (put refl room) refl)
                (take refl refl) refl)
              (within refl lt) refl)
            (admit refl) refl)
          (forward refl refl) refl

    pass_all :
        (k : ℕ) (sent es rest : List Any)
        → 1 ≤ s.buffer_size
        → k + length es ≤ s.max_elements
        → Quiet (midway k sent (es ++ rest)) (midway (k + length es) (sent ++ es) rest)
    pass_all k sent [] rest room le = rw (append-nil, (let z : k + 0 ≡ k = omega arith in z)) still
    pass_all k sent (e ∷ es) rest room le =
        Quiet-trans (pass_one k sent e (es ++ rest) room (omega arith)) (
          rw (append_assoc, (let z : k + 1 + length es ≡ k + suc (length es) = omega arith in z)) at
            (pass_all (k + 1) (sent ++ (e ∷ [])) es rest room (omega arith)))

    -- One more element passes on the signal, although the quota is used up.
    pass_on_signal :
        (k : ℕ) (sent : List Any) (e : Any) (rest : List Any)
        → 1 ≤ s.buffer_size
        → s.max_elements ≤ k
        → (t : Throttler Any) × Quiet (midway k sent (e ∷ rest)) t
          × (t.counter ≡ k + 1)
          × (t.inlet.history ≡ sent ++ (e ∷ []))
    pass_on_signal k sent e rest room le = (
      _,
      onward
          (onward
            (onward
              (onward
                (onward
                  (onward (onward (onward still (read refl refl) refl) (put refl room) refl)
                    (take refl refl) refl)
                  (exceeded refl le) refl)
                (arrive refl) refl)
              (signal refl refl) refl)
            (admit refl) refl)
          (forward refl refl) refl,
      refl,
      refl,
    )

  -- A run of `s` with a single reset, from `r` to `t`, before which nothing has been delivered and
  -- after which the elements of `es` and then `e` have been, all of them counted.
  pub record Overshoot (n : ℕ) (es : List Any) (e : Any) (s : Throttler Any) : Type 0 where
    pub before : Throttler Any
    pub resetting : Throttler Any
    pub end : Throttler Any
    pub to_reset : Quiet s before
    pub the_reset : Step before resetting
    pub is_the_reset : is_reset the_reset ≡ true
    pub none_delivered : before.inlet.history ≡ []
    pub from_reset : Quiet resetting end
    pub counted : end.counter ≡ n + 1
    pub delivered : end.inlet.history ≡ es ++ (e ∷ [])

  initial-Overshoot :
      (n : ℕ) (period : ℤ) (size : ℕ) (mode : ThrottleMode) (es : List Any) (e : Any)
      (rest : List Any)
      → nonpositive period ≡ false
      → 1 ≤ size
      → length es ≡ n
      → Overshoot n es e (initial n period size mode (es ++ (e ∷ rest)))
  initial-Overshoot n period size mode es e rest timely room count =
      let (u, path, counted, history) =
        pass_on_signal start (0 + length es) es e rest room (omega arith) in
      record {
        before = record start { resetter = ticking };
        resetting = midway start 0 [] (es ++ (e ∷ rest));
        end = u;
        to_reset = onward still (start_ticker refl timely) refl;
        the_reset = reset refl;
        is_the_reset = refl;
        none_delivered = refl;
        from_reset = Quiet-trans (pass_all start 0 [] es (e ∷ rest) room (omega arith)) path;
        counted = omega arith;
        delivered = history;
      }
    where
      start : Throttler Any
      start = initial n period size mode (es ++ (e ∷ rest))

  accepted_initial :
      (n : ℕ) (period size : ℤ) (mode : ThrottleMode) (given : List Any) {s : Throttler Any}
      → new_throttler (pos n) period size mode given ≡ some s
      → (initial n period (magnitude size) mode given ≡ s) × (1 ≤ magnitude size)
  unfolding new_throttler
  accepted_initial n period size mode given made = grind arith

  -- The bound is reached: a throttler for `n` elements with a positive period can let `n + 1` elements
  -- pass, the first ones of any input that has as many, in a run whose only reset of the counter
  -- comes before all of them.
  pub quota_exceeded :
      (n : ℕ) (period size : ℤ) (mode : ThrottleMode) (es : List Any) (e : Any) (rest : List Any)
      {s : Throttler Any}
      → new_throttler (pos n) period size mode (es ++ (e ∷ rest)) ≡ some s
      → nonpositive period ≡ false
      → length es ≡ n
      → Overshoot n es e s
  quota_exceeded n period size mode es e rest made timely count =
      let (same, room) = accepted_initial n period size mode (es ++ (e ∷ rest)) made in
      subst (Overshoot n es e) same
        (initial-Overshoot n period (magnitude size) mode es e rest timely room count)
