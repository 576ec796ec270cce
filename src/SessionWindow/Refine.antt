-- ===== src/SessionWindow/Refine.antt =====
-- The goroutines of flow/session_window.go, and what can be seen of them as moves of Windowing.
use go_streams.Prelude.{
  ℕ, true, false, Option, List, [], ◌∷◌, ◌++◌, ◌⊎◌, inl, inr, refl, sym, arith, append_assoc,
  append-nil,
}
use go_streams.Element.{typed_prefix}
use go_streams.SessionWindow.{
  SessionWindow, new_session_window, Step, read, append, notify, skip_notify, finish, enter,
  timeout, last_window, send_window, close_out, Reach, here, next,
}
use go_streams.SessionWindow.Inv.{
  Control, Reach-Inv, hand, window_of, window_of-take_window, window_of-after_dispatch,
}
use go_streams.Windowing.{Windowing, start, Move, arrive, emit, conclude, Moves, none_yet}
use go_streams.Windowing.Laws.{Same, Moves-Same}

module _ {Any T : Type 0} (assert : Any → Option T) where
  -- What an observer sees of the goroutines.
  abbrev pub view : SessionWindow Any T → Windowing T
  view s = record {
    incoming = typed_prefix assert (hand s.receiver ++ s.input);
    pending = window_of s.emitter ++ s.buffer;
    emitted = s.out.history;
    ended = s.out.closed;
  }

  module _ (given : List Any) where
    Step-Move :
        {s t : SessionWindow Any T}
        → Step assert s t
        → Control assert given s
        → Same (view s) (view t) ⊎ Move (view s) (view t)
    Step-Move (read h e) c = inl (ground arith)
    Step-Move {s} (append {e} {t} h m a) c = inr (
        arrive (ground arith) (sym (append_assoc (window_of s.emitter) s.buffer (t ∷ []))) refl
          refl)
    Step-Move (notify h e) c = inl (ground arith)
    Step-Move (skip_notify h e) c = inl (ground arith)
    Step-Move (finish h e) c = inl (ground arith)
    Step-Move (enter h) c = inl (ground arith)
    Step-Move {s} (timeout h a) c =
        inl (
          ground (arith, window_of-take_window assert given s.buffer false [], append-nil s.buffer))
    Step-Move {s} (last_window h f) c =
        inl
          (ground (arith, window_of-take_window assert given s.buffer true [], append-nil s.buffer))
    Step-Move {s} (send_window {window} {last} h o) c = inr (
        emit {window = window} (ground (arith, c))
          (ground (arith, window_of-after_dispatch assert given last)) refl refl o refl)
    Step-Move (close_out h o) c = inr (
        conclude (ground (arith, c)) (ground (arith, c)) (ground (arith, c)) (ground (arith, c))
          refl o refl)

    session-Moves :
        (gap : ℕ) {s : SessionWindow Any T}
        → Reach assert (new_session_window gap given) s
        → Moves (start (typed_prefix assert given)) (view s)
    unfolding new_session_window
    session-Moves gap here = none_yet
    session-Moves gap (next r st) =
        Moves-Same (session-Moves gap r) (Step-Move st (Reach-Inv assert given gap r).control)

    -- Whatever the interleaving of its goroutines and the firing of its timer, what can be seen of a
    -- session window is a sequence of moves of a windowing operator on the elements of its type: in
    -- every state `s` that it can reach, each step to a state `t` is a move or cannot be seen, and
    -- both states are reached by moves from the start.
    pub session_refines :
        (gap : ℕ) {s t : SessionWindow Any T}
        → Reach assert (new_session_window gap given) s
        → Step assert s t
        → (Same (view s) (view t) ⊎ Move (view s) (view t))
          × Moves (start (typed_prefix assert given)) (view s)
          × Moves (start (typed_prefix assert given)) (view t)
    session_refines gap r st = (
      Step-Move st (Reach-Inv assert given gap r).control,
      session-Moves gap r,
      session-Moves gap (next r st),
    )
