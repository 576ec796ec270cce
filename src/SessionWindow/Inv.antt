-- ===== src/SessionWindow/Inv.antt =====
-- What holds of a session window between two steps.
use go_streams.Prelude.{
  ℕ, Bool, true, false, Option, List, [], ◌∷◌, ◌++◌, ◌≡◌, ◌≢◌, refl, arith, append_assoc, All,
  All-append, concat, concat-snoc,
}
use go_streams.Element.{typed_prefix, all_typed}
use go_streams.SessionWindow.{
  Receiver, holding, finished, Emitter, sending, closing, stopped, SessionWindow,
  new_session_window, after_dispatch, take_window, Step, read, append, notify, skip_notify, finish,
  enter, timeout, last_window, send_window, close_out, Reach, here, next,
}

-- The element that `receive` has taken from `in` and not yet stored.
abbrev pub hand : {Any : Type 0} → Receiver Any → List Any
hand (holding e) = e ∷ []
hand _ = []

-- The window that `emit` is about to send.
abbrev pub window_of : {T : Type 0} → Emitter T → List T
window_of (sending window last) = window
window_of _ = []

-- The places of `emit` by which the last window has been taken.
abbrev pub is_last : {T : Type 0} → Emitter T → Bool
is_last (sending window last) = last
is_last closing = true
is_last stopped = true
is_last _ = false

abbrev pub is_stopped : {T : Type 0} → Emitter T → Bool
is_stopped stopped = true
is_stopped _ = false

abbrev pub IsPending : {T : Type 0} → Emitter T → Type 0
IsPending (sending window last) = window ≢ []
IsPending _ = Unit

module _ {Any T : Type 0} (assert : Any → Option T) (given : List Any) where
  -- What holds of where the goroutines stand.
  pub record Control (s : SessionWindow Any T) : Type 0 where
    pub pending : IsPending s.emitter
    pub read_all : s.receiver ≡ finished → s.input ≡ []
    pub drained : is_last s.emitter ≡ true → (s.receiver ≡ finished) × (s.buffer ≡ [])
    pub closed : s.out.closed ≡ is_stopped s.emitter

  -- Sent, about to be sent, buffered, and still to come: together these are the elements given.
  abbrev pub IsKept : SessionWindow Any T → Type 0
  IsKept s =
      concat s.out.history
        ++ (window_of s.emitter ++ (s.buffer ++ typed_prefix assert (hand s.receiver ++ s.input)))
      ≡ typed_prefix assert given

  abbrev pub IsTyped : SessionWindow Any T → Type 0
  IsTyped s = all_typed assert given ≡ true → all_typed assert (hand s.receiver ++ s.input) ≡ true

  pub record Inv (s : SessionWindow Any T) : Type 0 where
    pub control : Control s
    pub kept : IsKept s
    pub nonempty : All (λ w. w ≢ []) s.out.history
    pub typed : IsTyped s

  init-Inv : (gap : ℕ) → Inv (new_session_window gap given)
  unfolding new_session_window
  init-Inv gap = record { control = ground arith; kept = refl; nonempty = tt; typed = λ h. h }

  Step-Control : {s t : SessionWindow Any T} → Step assert s t → Control s → Control t
  Step-Control (read h e) c = ground arith
  Step-Control (append h m a) c = ground arith
  Step-Control (notify h e) c = ground arith
  Step-Control (skip_notify h e) c = ground arith
  Step-Control (finish h e) c = ground arith
  Step-Control (enter h) c = ground arith
  Step-Control (timeout h a) c = ground arith
  Step-Control (last_window h f) c = ground arith
  Step-Control (send_window h o) c = ground arith
  Step-Control (close_out h o) c = ground arith

  Step-IsTyped : {s t : SessionWindow Any T} → Step assert s t → IsTyped s → IsTyped t
  Step-IsTyped (read h e) c g = ground (arith, c g)
  Step-IsTyped (append h m a) c g = ground (arith, c g)
  Step-IsTyped (notify h e) c g = ground (arith, c g)
  Step-IsTyped (skip_notify h e) c g = ground (arith, c g)
  Step-IsTyped (finish h e) c g = ground (arith, c g)
  Step-IsTyped (enter h) c g = c g
  Step-IsTyped (timeout h a) c g = c g
  Step-IsTyped (last_window h f) c g = c g
  Step-IsTyped (send_window h o) c g = c g
  Step-IsTyped (close_out h o) c g = c g

  Step-nonempty :
      {s t : SessionWindow Any T}
      → Step assert s t
      → Control s
      → All (λ w. w ≢ []) s.out.history
      → All (λ w. w ≢ []) t.out.history
  Step-nonempty {s} (send_window {window} h o) c n =
      All-append (λ w. w ≢ []) s.out.history (window ∷ []) n (ground arith, tt)
  Step-nonempty (read h e) c n = n
  Step-nonempty (append h m a) c n = n
  Step-nonempty (notify h e) c n = n
  Step-nonempty (skip_notify h e) c n = n
  Step-nonempty (finish h e) c n = n
  Step-nonempty (enter h) c n = n
  Step-nonempty (timeout h a) c n = n
  Step-nonempty (last_window h f) c n = n
  Step-nonempty (close_out h o) c n = n

  -- Taking the window moves the buffer to the emitter.
  pub window_of-take_window :
      (l : List T) (last : Bool) (rest : List T)
      → window_of (take_window l last) ++ rest ≡ l ++ rest
  window_of-take_window [] true rest = refl
  window_of-take_window [] false rest = refl
  window_of-take_window (x ∷ l) last rest = refl

  pub window_of-after_dispatch : (last : Bool) → window_of {T = T} (after_dispatch last) ≡ []
  window_of-after_dispatch true = refl
  window_of-after_dispatch false = refl

  Step-IsKept : {s t : SessionWindow Any T} → Step assert s t → IsKept s → IsKept t
  Step-IsKept (read h e) k = ground arith
  Step-IsKept {s} (append {e} {t} h m a) k =
      ground (arith, append_assoc s.buffer (t ∷ []) (typed_prefix assert s.input))
  Step-IsKept (notify h e) k = ground arith
  Step-IsKept (skip_notify h e) k = ground arith
  Step-IsKept (finish h e) k = ground arith
  Step-IsKept (enter h) k = ground arith
  Step-IsKept {s} (timeout h a) k = ground (
    arith,
    window_of-take_window s.buffer false (typed_prefix assert (hand s.receiver ++ s.input)),
  )
  Step-IsKept {s} (last_window h f) k = ground (
    arith,
    window_of-take_window s.buffer true (typed_prefix assert (hand s.receiver ++ s.input)),
  )
  Step-IsKept {s} (send_window {window} {last} h o) k = ground (
    arith,
    window_of-after_dispatch last,
    concat-snoc s.out.history window,
    append_assoc (concat s.out.history) window
        (s.buffer ++ typed_prefix assert (hand s.receiver ++ s.input)),
  )
  Step-IsKept (close_out h o) k = ground arith

  pub Step-Inv : {s t : SessionWindow Any T} → Step assert s t → Inv s → Inv t
  Step-Inv st inv = record {
    control = Step-Control st inv.control;
    kept = Step-IsKept st inv.kept;
    nonempty = Step-nonempty st inv.control inv.nonempty;
    typed = Step-IsTyped st inv.typed;
  }

  pub Reach-Inv :
      (gap : ℕ) {s : SessionWindow Any T} → Reach assert (new_session_window gap given) s → Inv s
  Reach-Inv gap here = init-Inv gap
  Reach-Inv gap (next r st) = Step-Inv st (Reach-Inv gap r)
