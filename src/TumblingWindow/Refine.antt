-- ===== src/TumblingWindow/Refine.antt =====
-- The goroutines of flow/tumbling_window.go, and what can be seen of them as moves of Windowing.
use go_streams.Prelude.{
  ℤ, true, false, Option, List, [], ◌∷◌, ◌++◌, ◌⊎◌, inl, inr, refl, sym, arith, append_assoc,
  append-nil,
}
use go_streams.Element.{typed_prefix}
use go_streams.TumblingWindow.{
  TumblingWindow, new_tumbling_window, Step, read, append, finish, start_ticker, tick, last_window,
  send_window, close_out, Reach, here, next,
}
use go_streams.TumblingWindow.Inv.{
  Control, Reach-Inv, hand, window_of, window_of-take_window, window_of-after_dispatch,
}
use go_streams.Windowing.{Windowing, start, Move, arrive, emit, conclude, Moves, none_yet}
use go_streams.Windowing.Laws.{Same, Moves-Same}

module _ {Any T : Type 0} (assert : Any → Option T) where
  -- What an observer sees of the goroutines.
  abbrev pub view : TumblingWindow Any T → Windowing T
  view s = record {
    incoming = typed_prefix assert (hand s.receiver ++ s.input);
    pending = window_of s.emitter ++ s.buffer;
    emitted = s.out.history;
    ended = s.out.closed;
  }

  module _ (given : List Any) where
    Step-Move :
        {s t : TumblingWindow Any T}
        → Step assert s t
        → Control assert given s
        → Same (view s) (view t) ⊎ Move (view s) (view t)
    Step-Move (read h e) c = inl (ground arith)
    Step-Move {s} (append {e} {t} h m a) c = inr (
        arrive (ground arith) (sym (append_assoc (window_of s.emitter) s.buffer (t ∷ []))) refl
          refl)
    Step-Move (finish h e) c = inl (ground arith)
    Step-Move (start_ticker h p) c = inl (ground arith)
    Step-Move {s} (tick h) c =
        inl (
          ground (arith, window_of-take_window assert given s.buffer false [], append-nil s.buffer))
    Step-Move {s} (last_window h f) c =
        inl
          (ground (arith, window_of-take_window assert given s.buffer true [], append-nil s.buffer))
    Step-Move {s} (send_window {window} {last} h o) c = inr (
        emit {window = window} (ground (arith, c))
          (ground (arith, window_of-after_dispatch assert given last)) refl refl o refl)
    Step-Move (close_out h o) c = inr (
        conclude (ground (arith, c)) (ground (arith, c)) (ground (arith, c)) (ground (arith, c))
          refl o refl)

    tumbling-Moves :
        (size : ℤ) {s : TumblingWindow Any T}
        → Reach assert (new_tumbling_window size given) s
        → Moves (start (typed_prefix assert given)) (view s)
    unfolding new_tumbling_window
    tumbling-Moves size here = none_yet
    tumbling-Moves size (next r st) =
        Moves-Same (tumbling-Moves size r) (Step-Move st (Reach-Inv assert given size r).control)

    -- Whatever the interleaving of its goroutines and its ticks, what can be seen of a
    -- tumbling window is a sequence of moves of a windowing operator on the elements of its type: in
    -- every state `s` that it can reach, each step to a state `t` is a move or cannot be seen, and
    -- both states are reached by moves from the start.
    pub tumbling_refines :
        (size : ℤ) {s t : TumblingWindow Any T}
        → Reach assert (new_tumbling_window size given) s
        → Step assert s t
        → (Same (view s) (view t) ⊎ Move (view s) (view t))
          × Moves (start (typed_prefix assert given)) (view s)
          × Moves (start (typed_prefix assert given)) (view t)
    tumbling_refines size r st = (
      Step-Move st (Reach-Inv assert given size r).control,
      tumbling-Moves size r,
      tumbling-Moves size (next r st),
    )
