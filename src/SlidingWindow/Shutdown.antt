-- ===== src/SlidingWindow/Shutdown.antt =====
-- The end of a sliding window's input (flow/sliding_window.go, emit).
use go_streams.Prelude.{
  inl, inr, ◌<◌, ℤ, Option, none, some, Option-cases, ℕ, ◌+◌, ◌≤◌, Bool, true, false, List, [], ◌∷◌,
  ◌++◌, ◌≡◌, refl, ap, arith, append-nil, append_assoc, ◌∙◌, weigh, keep,
}
use go_streams.Channel.{make_chan, Chan, ok}
use go_streams.SlidingWindow.{
  TimedElement, SlidingWindow, Event, arrive, timer, tick, process_element, on_done, run, Opts,
  new_sliding_window_with_opts, stream, first_element, calculate_window_start, event_time_of,
}
use go_streams.SlidingWindow.Extract.{not_after, after, elements_of}
use go_streams.SlidingWindow.Windows.{
  Sorting, chunk, window, dispatched, dispatch_window_lem, keep-SameBag,
}

split_at :
    {T : Type 0} (v : TimedElement T → ℕ) (bound : ℕ) (q : List (TimedElement T))
    → weigh v (keep (not_after bound) q) + weigh v (keep (after bound) q) ≡ weigh v q
split_at v bound [] = refl
split_at v bound (e ∷ q) = ground (arith, split_at v bound q)

module _ {T : Type 0} (sorting : Sorting T) where
  open sorting use {sort}

  -- At the end of the input, once the initial timer has fired, one last window is sent (unless it is
  -- empty) and the output is closed; the window and the queued elements after its upper boundary
  -- together make up the queue, so exactly the latter are lost. Before the timer has fired, the
  -- output is closed with no window at all.
  pub on_done_effect :
      (sw : SlidingWindow T)
      → sw.sliding_interval ≤ sw.window_size
      → sw.out.closed ≡ false
      → ((sw' : SlidingWindow T) × (w : List (TimedElement T)) × (on_done sort true sw ≡ ok sw')
          × (sw'.out
              ≡ record { history = sw.out.history ++ chunk sorting (elements_of w); closed = true })
          × ((v : TimedElement T → ℕ)
              → weigh v w + weigh v (keep (after (sw.lower_boundary + sw.window_size)) sw.queue)
                ≡ weigh v sw.queue))
        × (on_done sort false sw
            ≡ ok (record sw { out = record { history = sw.out.history; closed = true } }))
  unfolding on_done
  on_done_effect sw fits open_out = (
    (
      record (dispatched sorting sw) {
        out = record { history = (dispatched sorting sw).out.history; closed = true };
      },
      window sorting sw,
      rw (dispatch_window_lem sorting sw fits open_out),
      refl,
      λ v.
          omega
            (arith, keep-SameBag sorting (not_after upper) sw.queue v, split_at v upper sw.queue),
    ),
    rw open_out,
  )
    where
      upper : ℕ
      upper = sw.lower_boundary + sw.window_size

  process_element-kept :
      (now : ℕ) (e : T) (sw : SlidingWindow T)
      → ((process_element now e sw).sliding_interval ≡ sw.sliding_interval)
        × ((process_element now e sw).window_size ≡ sw.window_size)
        × ((process_element now e sw).out ≡ sw.out)
  unfolding process_element
  process_element-kept now e sw = ground arith

  -- No sequence of arrivals, timer and ticks makes a sliding window panic: at the end of its input its
  -- output is closed, behind the windows that were sent before.
  run_closes :
      (evs : List (Event T)) (started : Bool) (sw : SlidingWindow T)
      → sw.sliding_interval ≤ sw.window_size
      → sw.out.closed ≡ false
      → (sw' : SlidingWindow T) × (more : List (List T)) × (run sort evs started sw ≡ ok sw')
        × (sw'.out ≡ record { history = sw.out.history ++ more; closed = true })
  unfolding run
  run_closes [] true sw fits open_out =
      let ((sw', w, e, sent, _), _) = on_done_effect sw fits open_out in (sw', _, e, sent)
  run_closes [] false sw fits open_out =
      let (_, e) = on_done_effect sw fits open_out in
      (_, [], e, ground (arith, append-nil sw.out.history))
  run_closes (arrive now e ∷ evs) started sw fits open_out =
      let kept = process_element-kept now e sw in
      let (sw', more, ran, sent) =
        run_closes evs started (process_element now e sw) (omega (arith, kept))
          (ap (λ (c : Chan (List T)). c.closed) kept.2 ∙ open_out) in
      (sw', more, ran, ground (arith, sent, kept.2))
  run_closes (timer ∷ evs) started sw fits open_out = run_closes evs true sw fits open_out
  run_closes (tick ∷ evs) false sw fits open_out = run_closes evs false sw fits open_out
  run_closes (tick ∷ evs) true sw fits open_out =
      let now_sent = chunk sorting (elements_of (window sorting sw)) in
      let (sw', more, e, sent) = run_closes evs true (dispatched sorting sw) fits refl in
      (
        sw',
        now_sent ++ more,
        rw (dispatch_window_lem sorting sw fits open_out) e,
        ground (arith, sent, append_assoc sw.out.history now_sent more),
      )

  -- What a step before the end leaves as it was.
  abbrev IsSame : SlidingWindow T → SlidingWindow T → Type 0
  IsSame sw sw' =
      (sw'.sliding_interval ≡ sw.sliding_interval)
      × (sw'.window_size ≡ sw.window_size)
      × (sw'.out ≡ sw.out)

  first_element-total :
      (epoch now now' : ℕ) (e : T) (sw : SlidingWindow T)
      → 0 < sw.sliding_interval
      → (sw' : SlidingWindow T) × (delta : ℤ) × (first_element epoch now now' e sw
          ≡ some (sw', delta))
        × IsSame sw sw'
  unfolding first_element calculate_window_start
  first_element-total epoch now now' e sw positive =
      elim (Option-cases (calculate_window_start epoch sw (event_time_of sw now e))) [
        | inl missing ↦ absurd (ground arith)
        | inr ((start, delta), found) ↦ (
          process_element now' e (record sw { lower_boundary = start }),
          delta,
          rw (found, first_element),
          process_element-kept now' e (record sw { lower_boundary = start }),
        )
      ]

  accepted :
      (size interval : ℕ) (opts : Opts T) {sw : SlidingWindow T}
      → new_sliding_window_with_opts size interval opts ≡ some sw
      → (sw.sliding_interval ≡ interval)
        × (interval ≤ size)
        × (sw.window_size ≡ size)
        × (sw.out ≡ make_chan)
  unfolding new_sliding_window_with_opts
  accepted size interval opts made = grind arith

  -- A sliding window that `NewSlidingWindowWithOpts` accepted, with a sliding interval above 0, never
  -- panics: whatever its input, the timer and the ticks, it ends with its output closed.
  stream_closes :
      (size interval : ℕ) (opts : Opts T) (epoch : ℕ) (begin : Option (ℕ × ℕ × T))
      (evs : List (Event T)) {sw : SlidingWindow T}
      → new_sliding_window_with_opts size interval opts ≡ some sw
      → 0 < interval
      → (sw' : SlidingWindow T) × (stream sort epoch begin evs sw ≡ some (ok sw'))
        × (sw'.out.closed ≡ true)
  unfolding stream on_done
  stream_closes size interval opts epoch none evs {sw} made positive =
      let (_, _, _, fresh) = accepted size interval opts made in
      let (_, closed) =
        on_done_effect sw (omega (arith, accepted size interval opts made))
          (ap (λ (c : Chan (List T)). c.closed) fresh) in
      (_, ap some closed, refl)
  stream_closes size interval opts epoch (some (now, now', e)) evs {sw} made positive =
      let (same_interval, fits, same_size, fresh) = accepted size interval opts made in
      let (begun, delta, started, kept) = first_element-total epoch now now' e sw (omega arith) in
      let (sw', more, ran, sent) =
        run_closes evs false begun (omega (arith, kept.0, kept.1))
          (ap (λ (c : Chan (List T)). c.closed) (kept.2 ∙ fresh)) in
      (sw', rw (started, stream) (ap some ran), ap (λ (c : Chan (List T)). c.closed) sent)
