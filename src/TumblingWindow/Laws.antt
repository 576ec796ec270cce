-- ===== src/TumblingWindow/Laws.antt =====
-- What a tumbling window has sent when it closes its output, that it cannot panic on elements of its
-- type, and that it can always come to its end (flow/tumbling_window.go).
use go_streams.Prelude.{
  ℤ, nonpositive, ℕ, zero, suc, ◌+◌, ◌*◌, ◌<◌, Bool, true, false, Option, some, List, [], ◌∷◌, ◌≡◌,
  ◌≢◌, ◌⊎◌, inl, inr, refl, arith, append-nil, All, concat, length, Option-cases,
}
use go_streams.Element.{typed_prefix, all_typed}
use go_streams.TumblingWindow.{
  Receiver, reading, holding, finished, Emitter, starting, selecting, sending, closing, stopped,
  TumblingWindow, new_tumbling_window, take_window, Step, read, append, finish, start_ticker, tick,
  last_window, send_window, close_out, Crash, bad_element, bad_ticker, late_send, late_close, Reach,
  here, next,
}
use go_streams.TumblingWindow.Inv.{Inv, Reach-Inv, Step-Inv}

module _ {Any T : Type 0} (assert : Any → Option T) (given : List Any) where
  Inv-stopped :
      {s : TumblingWindow Any T}
      → Inv assert given s
      → s.out.closed ≡ true
      → (s.input ≡ []) × (concat s.out.history ≡ typed_prefix assert given)
  Inv-stopped {s} inv h = ground (arith, inv.control, inv.kept, append-nil (concat s.out.history))

  -- Whenever the output of a tumbling window is closed, after any interleaving of its goroutines and
  -- any ticks, it has read all elements, the windows sent, joined in their order, are
  -- the elements in their order, and none of the windows is empty.
  tumbling_complete :
      (size : ℤ) {s : TumblingWindow Any T}
      → Reach assert (new_tumbling_window size given) s
      → s.out.closed ≡ true
      → (s.input ≡ [])
        × (concat s.out.history ≡ typed_prefix assert given)
        × All (λ w. w ≢ []) s.out.history
  tumbling_complete size r h =
      let inv = Reach-Inv assert given size r in
      let (empty, joined) = Inv-stopped inv h in (empty, joined, inv.nonempty)

  -- The size that is set once stays, and the ticker is not started unless it is positive.
  abbrev IsTimely : TumblingWindow Any T → Type 0
  IsTimely s = nonpositive s.window_size ≡ false

  Reach-IsTimely : {s t : TumblingWindow Any T} → Reach assert s t → IsTimely s → IsTimely t
  Reach-IsTimely here h = h
  Reach-IsTimely (next r st) h = Step-IsTimely st (Reach-IsTimely r h)
    where
      Step-IsTimely : {s t : TumblingWindow Any T} → Step assert s t → IsTimely s → IsTimely t
      Step-IsTimely (read h e) c = c
      Step-IsTimely (append h m a) c = c
      Step-IsTimely (finish h e) c = c
      Step-IsTimely (start_ticker h p) c = c
      Step-IsTimely (tick h) c = c
      Step-IsTimely (last_window h f) c = c
      Step-IsTimely (send_window h o) c = c
      Step-IsTimely (close_out h o) c = c

  Inv-no-Crash :
      {s : TumblingWindow Any T}
      → Inv assert given s
      → IsTimely s
      → all_typed assert given ≡ true
      → ¬ Crash assert s
  Inv-no-Crash inv timely typed (bad_element h b) = ground (arith, inv.typed typed)
  Inv-no-Crash inv timely typed (late_send h c) = ground (arith, inv.control)
  Inv-no-Crash inv timely typed (bad_ticker h bad) = cc
  Inv-no-Crash inv timely typed (late_close h c) = ground (arith, inv.control)

  -- How far the goroutines are from the end.
  abbrev receiver_rank : Receiver Any → ℕ
  receiver_rank reading = 1
  receiver_rank (holding e) = 4
  receiver_rank finished = 0

  abbrev emitter_rank : Emitter T → ℕ
  emitter_rank (sending window false) = 5
  emitter_rank starting = 4
  emitter_rank selecting = 3
  emitter_rank (sending window true) = 2
  emitter_rank closing = 1
  emitter_rank stopped = 0

  abbrev rank : TumblingWindow Any T → ℕ
  rank s = 4 * length s.input + receiver_rank s.receiver + emitter_rank s.emitter

  -- A step that brings the end nearer.
  abbrev Advances : TumblingWindow Any T → Type 0
  Advances s = (t : TumblingWindow Any T) × Step assert s t × (rank t < rank s)

  module _ {s : TumblingWindow Any T} (inv : Inv assert given s) (timely : IsTimely s)
      (typed : all_typed assert given ≡ true) where
    send-Advances : (window : List T) (last : Bool) → s.emitter ≡ sending window last → Advances s
    send-Advances window true h = (_, send_window h (ground (arith, inv.control)), ground arith)
    send-Advances window false h = (_, send_window h (ground (arith, inv.control)), ground arith)

    emitter-Advances :
        s.receiver ≡ finished → (em : Emitter T) → s.emitter ≡ em → (em ≡ stopped) ⊎ Advances s
    emitter-Advances f starting h = inr (_, start_ticker h timely, ground arith)
    emitter-Advances f selecting h = inr (_, last_window h f, by_buffer s.buffer)
      where
        by_buffer :
            (l : List T)
            → 4 * length s.input + receiver_rank s.receiver + emitter_rank (take_window l true)
              < rank s
        by_buffer [] = ground arith
        by_buffer (x ∷ l) = ground arith
    emitter-Advances f (sending window last) h = inr (send-Advances window last h)
    emitter-Advances f closing h = inr (_, close_out h (ground (arith, inv.control)), ground arith)
    emitter-Advances f stopped h = inl refl

    append-Advances : (e : Any) → s.receiver ≡ holding e → Advances s
    append-Advances e h = elim (Option-cases (assert e)) [
      | inl bad ↦ absurd (Inv-no-Crash inv timely typed (bad_element h bad))
      | inr (t, good) ↦ by_emitter t good s.emitter refl
    ]
      where
        by_emitter : (t : T) → assert e ≡ some t → (em : Emitter T) → s.emitter ≡ em → Advances s
        by_emitter t good (sending window last) m = send-Advances window last m
        by_emitter t good starting m = (_, append h (rw m) good, ground arith)
        by_emitter t good selecting m = (_, append h (rw m) good, ground arith)
        by_emitter t good closing m = (_, append h (rw m) good, ground arith)
        by_emitter t good stopped m = (_, append h (rw m) good, ground arith)

    read-Advances : s.receiver ≡ reading → (l : List Any) → s.input ≡ l → Advances s
    read-Advances h [] e = (_, finish h e, ground arith)
    read-Advances h (x ∷ l) e = (_, read h e, ground arith)

    stopped_or-Advances : (s.out.closed ≡ true) ⊎ Advances s
    stopped_or-Advances = by_receiver s.receiver refl
      where
        by_receiver : (r : Receiver Any) → s.receiver ≡ r → (s.out.closed ≡ true) ⊎ Advances s
        by_receiver reading h = inr (read-Advances h s.input refl)
        by_receiver (holding e) h = inr (append-Advances e h)
        by_receiver finished h = elim (emitter-Advances h s.emitter refl) [
          | inl st ↦ inl (ground (arith, inv.control))
          | inr go ↦ inr go
        ]

  closes_within :
      (fuel : ℕ) {r s : TumblingWindow Any T}
      → Inv assert given s
      → IsTimely s
      → all_typed assert given ≡ true
      → rank s < fuel
      → Reach assert r s
      → (t : TumblingWindow Any T) × Reach assert r t × (t.out.closed ≡ true)
  closes_within zero inv timely typed h path = absurd (omega arith)
  closes_within (suc fuel) {r} {s} inv timely typed h path =
      elim (stopped_or-Advances inv timely typed) [
        | inl done ↦ (s, path, done)
        | inr (t, st, nearer) ↦
            closes_within fuel (Step-Inv assert given st inv) (Reach-IsTimely (next here st) timely)
              typed (omega arith) (next path st)
      ]

  -- With a positive size and on elements that are all of its type, no goroutine of a tumbling window
  -- ever panics, and from every state that it can reach it can go on to a state with its output
  -- closed.
  tumbling_can_close :
      (size : ℤ) {s : TumblingWindow Any T}
      → nonpositive size ≡ false
      → all_typed assert given ≡ true
      → Reach assert (new_tumbling_window size given) s
      → (¬ Crash assert s) × ((t : TumblingWindow Any T) × Reach assert s t × (t.out.closed ≡ true))
  unfolding new_tumbling_window
  tumbling_can_close size {s} positive typed path =
      let inv = Reach-Inv assert given size path in
      let timely = Reach-IsTimely path positive in
      (
        Inv-no-Crash inv timely typed,
        closes_within (suc (rank s)) inv timely typed (omega arith) here,
      )
