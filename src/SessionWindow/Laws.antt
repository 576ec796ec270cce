-- ===== src/SessionWindow/Laws.antt =====
-- What a session window has sent when it closes its output, that it cannot panic on elements of its
-- type, and that it can always come to its end (flow/session_window.go).
use go_streams.Prelude.{
  ℕ, zero, suc, ◌+◌, ◌*◌, ◌<◌, Bool, true, false, Option, some, List, [], ◌∷◌, ◌≡◌, ◌≢◌, ◌⊎◌, inl,
  inr, refl, arith, append-nil, All, concat, length, Option-cases,
}
use go_streams.Element.{typed_prefix, all_typed}
use go_streams.SessionWindow.{
  Receiver, reading, holding, notifying, finished, Emitter, looping, selecting, sending, closing,
  stopped, SessionWindow, new_session_window, take_window, Step, read, append, notify, skip_notify,
  finish, enter, last_window, send_window, close_out, Crash, bad_element, late_send, late_close,
  Reach, here, next,
}
use go_streams.SessionWindow.Inv.{Inv, Reach-Inv, Step-Inv}

module _ {Any T : Type 0} (assert : Any → Option T) (given : List Any) where
  Inv-stopped :
      {s : SessionWindow Any T}
      → Inv assert given s
      → s.out.closed ≡ true
      → (s.input ≡ []) × (concat s.out.history ≡ typed_prefix assert given)
  Inv-stopped {s} inv h = ground (arith, inv.control, inv.kept, append-nil (concat s.out.history))

  -- Whenever the output of a session window is closed, after any interleaving of its goroutines and
  -- any firing of its timer, it has read all elements, the windows sent, joined in their order, are
  -- the elements in their order, and none of the windows is empty.
  pub session_complete :
      (gap : ℕ) {s : SessionWindow Any T}
      → Reach assert (new_session_window gap given) s
      → s.out.closed ≡ true
      → (s.input ≡ [])
        × (concat s.out.history ≡ typed_prefix assert given)
        × All (λ w. w ≢ []) s.out.history
  session_complete gap r h =
      let inv = Reach-Inv assert given gap r in
      let (empty, joined) = Inv-stopped inv h in (empty, joined, inv.nonempty)

  Inv-no-Crash :
      {s : SessionWindow Any T}
      → Inv assert given s
      → all_typed assert given ≡ true
      → ¬ Crash assert s
  Inv-no-Crash inv typed (bad_element h b) = ground (arith, inv.typed typed)
  Inv-no-Crash inv typed (late_send h c) = ground (arith, inv.control)
  Inv-no-Crash inv typed (late_close h c) = ground (arith, inv.control)

  -- How far the goroutines are from the end.
  abbrev receiver_rank : Receiver Any → ℕ
  receiver_rank reading = 1
  receiver_rank notifying = 3
  receiver_rank (holding e) = 4
  receiver_rank finished = 0

  abbrev emitter_rank : Emitter T → ℕ
  emitter_rank (sending window false) = 5
  emitter_rank looping = 4
  emitter_rank selecting = 3
  emitter_rank (sending window true) = 2
  emitter_rank closing = 1
  emitter_rank stopped = 0

  abbrev rank : SessionWindow Any T → ℕ
  rank s = 4 * length s.input + receiver_rank s.receiver + emitter_rank s.emitter

  -- A step that brings the end nearer.
  abbrev Advances : SessionWindow Any T → Type 0
  Advances s = (t : SessionWindow Any T) × Step assert s t × (rank t < rank s)

  module _ {s : SessionWindow Any T} (inv : Inv assert given s)
      (typed : all_typed assert given ≡ true) where
    send-Advances : (window : List T) (last : Bool) → s.emitter ≡ sending window last → Advances s
    send-Advances window true h = (_, send_window h (ground (arith, inv.control)), ground arith)
    send-Advances window false h = (_, send_window h (ground (arith, inv.control)), ground arith)

    emitter-Advances :
        s.receiver ≡ finished → (em : Emitter T) → s.emitter ≡ em → (em ≡ stopped) ⊎ Advances s
    emitter-Advances f looping h = inr (_, enter h, ground arith)
    emitter-Advances f selecting h = inr (_, last_window h f, by_buffer s.buffer)
      where
        by_buffer :
            (l : List T)
            → 4 * length s.input + receiver_rank s.receiver + emitter_rank (take_window l true)
              < rank s
        by_buffer [] = ground arith
        by_buffer (x ∷ l) = ground arith
    emitter-Advances f (sending window last) h = inr (send-Advances window last h)
    emitter-Advances f closing h = inr (_, close_out h (ground (arith, inv.control)), ground arith)
    emitter-Advances f stopped h = inl refl

    append-Advances : (e : Any) → s.receiver ≡ holding e → Advances s
    append-Advances e h = elim (Option-cases (assert e)) [
      | inl bad ↦ absurd (Inv-no-Crash inv typed (bad_element h bad))
      | inr (t, good) ↦ by_emitter t good s.emitter refl
    ]
      where
        by_emitter : (t : T) → assert e ≡ some t → (em : Emitter T) → s.emitter ≡ em → Advances s
        by_emitter t good (sending window last) m = send-Advances window last m
        by_emitter t good looping m = (_, append h (rw m) good, ground arith)
        by_emitter t good selecting m = (_, append h (rw m) good, ground arith)
        by_emitter t good closing m = (_, append h (rw m) good, ground arith)
        by_emitter t good stopped m = (_, append h (rw m) good, ground arith)

    notify-Advances : s.receiver ≡ notifying → (em : Emitter T) → s.emitter ≡ em → Advances s
    notify-Advances h selecting m = (_, notify h m, ground arith)
    notify-Advances h looping m = (_, skip_notify h (λ e. ground arith), ground arith)
    notify-Advances h (sending window last) m = (_, skip_notify h (λ e. ground arith), ground arith)
    notify-Advances h closing m = (_, skip_notify h (λ e. ground arith), ground arith)
    notify-Advances h stopped m = (_, skip_notify h (λ e. ground arith), ground arith)

    read-Advances : s.receiver ≡ reading → (l : List Any) → s.input ≡ l → Advances s
    read-Advances h [] e = (_, finish h e, ground arith)
    read-Advances h (x ∷ l) e = (_, read h e, ground arith)

    stopped_or-Advances : (s.out.closed ≡ true) ⊎ Advances s
    stopped_or-Advances = by_receiver s.receiver refl
      where
        by_receiver : (r : Receiver Any) → s.receiver ≡ r → (s.out.closed ≡ true) ⊎ Advances s
        by_receiver reading h = inr (read-Advances h s.input refl)
        by_receiver (holding e) h = inr (append-Advances e h)
        by_receiver notifying h = inr (notify-Advances h s.emitter refl)
        by_receiver finished h = elim (emitter-Advances h s.emitter refl) [
          | inl st ↦ inl (ground (arith, inv.control))
          | inr go ↦ inr go
        ]

  closes_within :
      (fuel : ℕ) {r s : SessionWindow Any T}
      → Inv assert given s
      → all_typed assert given ≡ true
      → rank s < fuel
      → Reach assert r s
      → (t : SessionWindow Any T) × Reach assert r t × (t.out.closed ≡ true)
  closes_within zero inv typed h path = absurd (omega arith)
  closes_within (suc fuel) {r} {s} inv typed h path = elim (stopped_or-Advances inv typed) [
    | inl done ↦ (s, path, done)
    | inr (t, st, nearer) ↦
        closes_within fuel (Step-Inv assert given st inv) typed (omega arith) (next path st)
  ]

  -- On elements that are all of its type, no goroutine of a session window ever panics, and from
  -- every state that it can reach it can go on to a state with its output closed.
  pub session_can_close :
      (gap : ℕ) {s : SessionWindow Any T}
      → all_typed assert given ≡ true
      → Reach assert (new_session_window gap given) s
      → (¬ Crash assert s) × ((t : SessionWindow Any T) × Reach assert s t × (t.out.closed ≡ true))
  session_can_close gap {s} typed path =
      let inv = Reach-Inv assert given gap path in
      (Inv-no-Crash inv typed, closes_within (suc (rank s)) inv typed (omega arith) here)
