-- ===== src/Examples/Windows.antt =====
-- Runs of the windows of processing time (flow/session_window.go, flow/tumbling_window.go).
use go_streams.Prelude.{ℕ, true, false, [], ◌∷◌, ◌≡◌, ◌≢◌, refl, pos, ◌⊎◌, All, concat}
use go_streams.Element.{typed_prefix}
use go_streams.SessionWindow
use go_streams.SessionWindow.{SessionWindow, new_session_window}
use go_streams.SessionWindow.Laws.{session_complete, session_can_close}
use go_streams.SessionWindow.LostReset.{IsForgotten, lost_reset}
use go_streams.TumblingWindow
use go_streams.TumblingWindow.{TumblingWindow, new_tumbling_window}
use go_streams.SessionWindow.Refine.{session_refines}
use go_streams.TumblingWindow.Refine.{tumbling_refines}
use go_streams.Windowing.{start, Move, Moves}
use go_streams.Windowing.Laws.{Same}
use go_streams.Examples.Data.{Dynamic, number, as_number}

-- One element, whose session the end of the input closes.
abbrev session_done : SessionWindow Dynamic ℕ
session_done = record {
  inactivity_gap = 5;
  buffer = [];
  input = [];
  out = record { history = (1 ∷ []) ∷ []; closed = true };
  armed = false;
  receiver = SessionWindow.finished;
  emitter = SessionWindow.stopped;
}

-- Before the output is closed.
abbrev session_closing : SessionWindow Dynamic ℕ
session_closing = record session_done {
  out = record { history = (1 ∷ []) ∷ []; closed = false };
  emitter = SessionWindow.closing;
}

session_run_closing :
    SessionWindow.Reach as_number (new_session_window 5 (number 1 ∷ [])) session_closing
unfolding new_session_window
session_run_closing =
    (SessionWindow.next
      (SessionWindow.next
        (SessionWindow.next
          (SessionWindow.next
            (SessionWindow.next
              (SessionWindow.next
                (SessionWindow.next SessionWindow.here (SessionWindow.read refl refl))
                (SessionWindow.append refl refl refl))
              (SessionWindow.skip_notify refl (λ e. cc)))
            (SessionWindow.enter refl))
          (SessionWindow.finish refl refl))
        (SessionWindow.last_window refl refl))
      (SessionWindow.send_window refl refl))

session_run : SessionWindow.Reach as_number (new_session_window 5 (number 1 ∷ [])) session_done
session_run = SessionWindow.next session_run_closing (SessionWindow.close_out refl refl)

session_complete_example :
    (session_done.input ≡ [])
    × (concat session_done.out.history ≡ typed_prefix as_number (number 1 ∷ []))
    × All (λ w. w ≢ []) session_done.out.history
session_complete_example = session_complete as_number (number 1 ∷ []) 5 session_run refl

session_can_close_example :
    (¬ SessionWindow.Crash as_number session_done)
    × ((t : SessionWindow Dynamic ℕ) × SessionWindow.Reach as_number session_done t
        × (t.out.closed ≡ true))
session_can_close_example = session_can_close as_number (number 1 ∷ []) 5 refl session_run

lost_reset_example :
    (s : SessionWindow Dynamic ℕ) × SessionWindow.Reach as_number
      (new_session_window 5 (number 1 ∷ number 2 ∷ []))
      s
    × IsForgotten s
    × (s.buffer ≡ 2 ∷ [])
    × (s.out.history ≡ (1 ∷ []) ∷ [])
    × (s.input ≡ [])
lost_reset_example = lost_reset as_number 5 (number 1) (number 2) [] refl refl

-- One element in a window that a tick closes.
abbrev tumbling_done : TumblingWindow Dynamic ℕ
tumbling_done = record {
  window_size = pos 5;
  buffer = [];
  input = [];
  out = record { history = (1 ∷ []) ∷ []; closed = true };
  receiver = TumblingWindow.finished;
  emitter = TumblingWindow.stopped;
}

-- Before the output is closed.
abbrev tumbling_closing : TumblingWindow Dynamic ℕ
tumbling_closing = record tumbling_done {
  out = record { history = (1 ∷ []) ∷ []; closed = false };
  emitter = TumblingWindow.closing;
}

tumbling_run_closing :
    TumblingWindow.Reach as_number (new_tumbling_window (pos 5) (number 1 ∷ [])) tumbling_closing
unfolding new_tumbling_window
tumbling_run_closing =
    (TumblingWindow.next
      (TumblingWindow.next
        (TumblingWindow.next
          (TumblingWindow.next
            (TumblingWindow.next
              (TumblingWindow.next
                (TumblingWindow.next TumblingWindow.here (TumblingWindow.start_ticker refl refl))
                (TumblingWindow.read refl refl))
              (TumblingWindow.append refl refl refl))
            (TumblingWindow.tick refl))
          (TumblingWindow.send_window refl refl))
        (TumblingWindow.finish refl refl))
      (TumblingWindow.last_window refl refl))

tumbling_run :
    TumblingWindow.Reach as_number (new_tumbling_window (pos 5) (number 1 ∷ [])) tumbling_done
tumbling_run = TumblingWindow.next tumbling_run_closing (TumblingWindow.close_out refl refl)

session_refines_example :
    (Same
        (go_streams.SessionWindow.Refine.view as_number session_closing)
        (go_streams.SessionWindow.Refine.view as_number session_done)
      ⊎ Move
          (go_streams.SessionWindow.Refine.view as_number session_closing)
          (go_streams.SessionWindow.Refine.view as_number session_done))
    × Moves
        (start (typed_prefix as_number (number 1 ∷ [])))
        (go_streams.SessionWindow.Refine.view as_number session_closing)
    × Moves
        (start (typed_prefix as_number (number 1 ∷ [])))
        (go_streams.SessionWindow.Refine.view as_number session_done)
session_refines_example =
    session_refines as_number (number 1 ∷ []) 5 session_run_closing
      (SessionWindow.close_out refl refl)

tumbling_refines_example :
    (Same
        (go_streams.TumblingWindow.Refine.view as_number tumbling_closing)
        (go_streams.TumblingWindow.Refine.view as_number tumbling_done)
      ⊎ Move
          (go_streams.TumblingWindow.Refine.view as_number tumbling_closing)
          (go_streams.TumblingWindow.Refine.view as_number tumbling_done))
    × Moves
        (start (typed_prefix as_number (number 1 ∷ [])))
        (go_streams.TumblingWindow.Refine.view as_number tumbling_closing)
    × Moves
        (start (typed_prefix as_number (number 1 ∷ [])))
        (go_streams.TumblingWindow.Refine.view as_number tumbling_done)
tumbling_refines_example =
    tumbling_refines as_number (number 1 ∷ []) (pos 5) tumbling_run_closing
      (TumblingWindow.close_out refl refl)
