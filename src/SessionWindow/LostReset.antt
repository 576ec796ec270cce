-- ===== src/SessionWindow/LostReset.antt =====
-- A notification that `receive` drops leaves the timer of a session window unarmed
-- (flow/session_window.go, notifyTimerReset and emit).
use go_streams.Prelude.{ℕ, false, Option, some, List, [], ◌∷◌, ◌≡◌, ◌≢◌, ◌⊎◌, inl, inr, refl, arith}
use go_streams.SessionWindow.{
  reading, holding, finished, selecting, SessionWindow, new_session_window, Step, read, append,
  notify, skip_notify, finish, enter, timeout, last_window, send_window, close_out, Reach, here,
  next,
}

-- Both goroutines wait, with elements in the buffer and a timer that will not fire.
abbrev pub IsForgotten : {Any T : Type 0} → SessionWindow Any T → Type 0
IsForgotten s =
    (s.buffer ≢ []) × (s.armed ≡ false) × (s.receiver ≡ reading) × (s.emitter ≡ selecting)

module _ {Any T : Type 0} (assert : Any → Option T) where
  -- When both goroutines wait with elements in the buffer and a timer that will not fire, nothing
  -- happens, however long the inactivity, until the upstream sends another element or closes the
  -- channel: these are the only steps, and they send no window.
  forgotten_waits :
      {s t : SessionWindow Any T}
      → IsForgotten s
      → Step assert s t
      → (t.out ≡ s.out)
        × (((e : Any) × (t.receiver ≡ holding e) × (s.input ≡ e ∷ t.input))
            ⊎ ((t.receiver ≡ finished) × (s.input ≡ [])))
  forgotten_waits f (read {e} h i) = (refl, inl (e, refl, i))
  forgotten_waits f (finish h i) = (refl, inr (refl, i))
  forgotten_waits f (append h m a) = ground arith
  forgotten_waits f (notify h e) = ground arith
  forgotten_waits f (skip_notify h e) = ground arith
  forgotten_waits f (enter h) = ground arith
  forgotten_waits f (timeout h a) = ground arith
  forgotten_waits f (last_window h g) = ground arith
  forgotten_waits f (send_window h o) = ground arith
  forgotten_waits f (close_out h o) = ground arith

  -- Every session window whose input begins with two elements of its type can reach a state in which
  -- both goroutines wait, the timer will not fire, the first window has been sent, and the second
  -- element is in the buffer, because it came while `emit` was on its way back to the `select`.
  pub lost_reset :
      (gap : ℕ) (a b : Any) (rest : List Any) {x y : T}
      → assert a ≡ some x
      → assert b ≡ some y
      → (s : SessionWindow Any T) × Reach assert (new_session_window gap (a ∷ b ∷ rest)) s
        × IsForgotten s
        × (s.buffer ≡ y ∷ [])
        × (s.out.history ≡ (x ∷ []) ∷ [])
        × (s.input ≡ rest)
  unfolding new_session_window
  lost_reset gap a b rest {x} {y} ha hb = (
    _,
    next
        (next
          (next
            (next
              (next
                (next
                  (next
                    (next
                      (next (next (next here (read refl refl)) (append refl refl ha)) (enter refl))
                      (notify refl refl))
                    (enter refl))
                  (timeout refl refl))
                (send_window refl refl))
              (read refl refl))
            (append refl refl hb))
          (skip_notify refl (λ e. cc)))
        (enter refl),
    (λ e. cc, refl, refl, refl),
    refl,
    refl,
    refl,
  )
