-- ===== src/Windowing.antt =====
-- What an operator that cuts its elements into windows promises, whatever its goroutines, timers and
-- locks do: the documented behaviour of flow/session_window.go and flow/tumbling_window.go.
pub mod Laws
use go_streams.Prelude.{ℕ, Bool, true, false, List, [], ◌∷◌, ◌++◌, ◌≡◌, ◌≢◌}

-- The elements that are still to come, those that have come and are in no window yet, the windows
-- emitted, and whether the output has ended.
pub record Windowing (T : Type 0) : Type 0 where
  pub incoming : List T
  pub pending : List T
  pub emitted : List (List T)
  pub ended : Bool

abbrev pub start : {T : Type 0} → List T → Windowing T
start elements = record { incoming = elements; pending = []; emitted = []; ended = false }

module _ {T : Type 0} where
  -- The next element comes; the first elements that are pending are emitted as a window, which is not
  -- empty; or, when nothing is left, the output ends.
  pub data Move (s t : Windowing T) : Type 0 where
    arrive :
        {e : T}
        → s.incoming ≡ e ∷ t.incoming
        → t.pending ≡ s.pending ++ (e ∷ [])
        → t.emitted ≡ s.emitted
        → t.ended ≡ s.ended
        → Move s t
    emit :
        {window : List T}
        → window ≢ []
        → s.pending ≡ window ++ t.pending
        → t.emitted ≡ s.emitted ++ (window ∷ [])
        → t.incoming ≡ s.incoming
        → s.ended ≡ false
        → t.ended ≡ false
        → Move s t
    conclude :
        s.incoming ≡ []
        → s.pending ≡ []
        → t.incoming ≡ []
        → t.pending ≡ []
        → t.emitted ≡ s.emitted
        → s.ended ≡ false
        → t.ended ≡ true
        → Move s t

  -- What can come of a state.
  pub data Moves (s : Windowing T) : Windowing T → Type 0 where
    none_yet : Moves s s
    then_move : {t u : Windowing T} → Moves s t → Move t u → Moves s u
