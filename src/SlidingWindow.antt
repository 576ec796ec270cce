-- ===== src/SlidingWindow.antt =====
-- flow/sliding_window.go: overlapping windows of event time. What runs under the mutex is a function
-- here, and an interleaving of the goroutines is a sequence of events.
--
-- A `time.Time` is the number of nanoseconds since Go's zero time, and `epoch` that of 1970; times
-- before the zero time, and durations below 0, are left out. `sort.Slice`, which need not be stable,
-- is an argument.
pub mod Extract
pub mod Boundary
pub mod Windows
pub mod Shutdown
use go_streams.Prelude.{
  ℕ, suc, negsuc, sub, ◌+◌, ◌-◌, ◌%◌, Bool, true, false, Option, none, some, List, [], ◌∷◌, ◌++◌,
  length, ltb, leb, ◌==◌, ◌&&◌, ℤ, pos, neg, if◌then◌else◌,
}
use go_streams.Channel.{Chan, Outcome, ok, panic, ◌>>=◌, make_chan, send, close, forward}

-- `SlidingWindowOpts`; `none` is a nil extractor.
pub record Opts (T : Type 0) : Type 0 where
  pub event_time_extractor : Option (T → ℕ)
  pub emit_partial_window : Bool
  pub allowed_lateness : ℕ

-- `timedElement`
pub record TimedElement (T : Type 0) : Type 0 where
  pub element : T
  pub event_time : ℕ

pub record SlidingWindow (T : Type 0) : Type 0 where
  pub window_size : ℕ
  pub sliding_interval : ℕ
  pub lower_boundary : ℕ
  pub queue : List (TimedElement T)
  pub out : Chan (List T)
  pub opts : Opts T

-- `NewSlidingWindowWithOpts`; `none` is one of its panics.
unfoldable pub new_sliding_window_with_opts :
    {T : Type 0} → ℕ → ℕ → Opts T → Option (SlidingWindow T)
new_sliding_window_with_opts window_size sliding_interval opts =
    if ltb window_size sliding_interval
    then none
    else if ltb sliding_interval opts.allowed_lateness
    then none
    else some (record {
      window_size = window_size;
      sliding_interval = sliding_interval;
      lower_boundary = 0;
      queue = [];
      out = make_chan;
      opts = opts;
    })

-- `NewSlidingWindow`
unfoldable pub new_sliding_window : {T : Type 0} → ℕ → ℕ → Option (SlidingWindow T)
unfolding new_sliding_window_with_opts
new_sliding_window window_size sliding_interval =
    new_sliding_window_with_opts window_size sliding_interval
      (record { event_time_extractor = none; emit_partial_window = false; allowed_lateness = 0 })

-- What reaches the shared state after the first element: another element with the reading of the
-- clock, the initial timer of `emit`, or its ticker (which `emit` makes when the timer has fired).
pub data Event (T : Type 0) : Type 0 where
  arrive : (now : ℕ) → T → Event T
  timer tick : Event T

module _ {T : Type 0} where
  -- `eventTime`; `now` is the processing time.
  unfoldable pub event_time_of : SlidingWindow T → ℕ → T → ℕ
  event_time_of sw now element = elim sw.opts.event_time_extractor [
    | none ↦ now
    | some extract ↦ extract element
  ]

  -- `processElement` of `stream`
  unfoldable pub process_element : ℕ → T → SlidingWindow T → SlidingWindow T
  unfolding event_time_of
  process_element now element sw =
      let time = event_time_of sw now element in
      if ltb time sw.lower_boundary
      then sw
      else record sw { queue = sw.queue ++ (record { element = element; event_time = time } ∷ []) }

  -- `calculateWindowStart`: the start and the `delta`; `none` is a division by zero. Go's `%` has the
  -- sign of its left side, so that before 1970 `delta` is not positive. For times before 1678 and after
  -- 2262, which do not fit in an int64 of nanoseconds, Go leaves the result of `UnixNano` open.
  unfoldable pub calculate_window_start : ℕ → SlidingWindow T → ℕ → Option (ℕ × ℤ)
  calculate_window_start epoch sw time =
      if time == 0
      then some (time, pos 0)
      else if sw.sliding_interval == 0
      then none
      else if leb epoch time
      then some
          (time - (time - epoch) % sw.sliding_interval, pos ((time - epoch) % sw.sliding_interval))
      else some
          (time + (epoch - time) % sw.sliding_interval, neg ((epoch - time) % sw.sliding_interval))

  -- `stream` on its first element: the lower boundary is set from its event time, then the element is
  -- processed. Without an extractor the two readings of the clock are `now` and `now'`.
  unfoldable pub first_element : ℕ → ℕ → ℕ → T → SlidingWindow T → Option (SlidingWindow T × ℤ)
  unfolding calculate_window_start process_element
  first_element epoch now now' element sw =
      elim (calculate_window_start epoch sw (event_time_of sw now element)) [
        | none ↦ none
        | some (start, delta) ↦
            some (process_element now' element (record sw { lower_boundary = start }), delta)
      ]

  -- `emit` on its `delta`: `initialDelay`. A delay that is not positive makes the timer fire at once.
  unfoldable pub initial_delay : SlidingWindow T → ℤ → ℤ
  initial_delay sw delta =
      let full = sw.opts.allowed_lateness + (sw.window_size - sw.sliding_interval) in
      if sw.opts.emit_partial_window
      then pos sw.opts.allowed_lateness
      else elim delta [ pos d ↦ sub full d | negsuc d ↦ pos (full + suc d) ]

  -- The first `if` in the loop of `extractWindowElements`: `remainingElements` at the element `e`,
  -- with `q` behind it. A nil slice is `none`.
  abbrev pub remaining_at :
      ℕ
      → TimedElement T
      → List (TimedElement T)
      → Option (List (TimedElement T))
      → Option (List (TimedElement T))
  remaining_at lower e q none = if ltb lower e.event_time then some (e ∷ q) else none
  remaining_at lower e q (some r) = some r

  -- The loop: the window's elements, and `remainingElements`.
  queue_loop :
      (upper lower : ℕ)
      → List (TimedElement T)
      → Option (List (TimedElement T))
      → List T × Option (List (TimedElement T))
  queue_loop upper lower [] remaining = ([], remaining)
  queue_loop upper lower (e ∷ q) remaining =
      let remaining' = remaining_at lower e q remaining in
      let (elements, last) = queue_loop upper lower q remaining' in
      if leb e.event_time upper then (e.element ∷ elements, last) else ([], remaining')

  -- A nil slice is empty.
  abbrev pub slice : Option (List (TimedElement T)) → List (TimedElement T)
  slice none = []
  slice (some q) = q

  -- `extractWindowElements`
  unfoldable pub extract_window_elements : SlidingWindow T → List T × SlidingWindow T
  unfolding queue_loop
  extract_window_elements sw =
      let upper = sw.lower_boundary + sw.window_size in
      let lower = sw.lower_boundary + sw.sliding_interval in
      let (elements, remaining) = queue_loop upper lower sw.queue none in
      (elements, record sw { lower_boundary = lower; queue = slice remaining })

  -- `sw.out <- windowElements` under its test.
  unfoldable pub send_window : List T → SlidingWindow T → Outcome (SlidingWindow T)
  send_window [] sw = ok sw
  send_window (x ∷ xs) sw = elim (send (x ∷ xs) sw.out) [
    | ok c ↦ ok (record sw { out = c })
    | panic e c ↦ panic e (record sw { out = c })
  ]

  module _ (sort : List (TimedElement T) → List (TimedElement T)) where
    -- `dispatchWindow`
    unfoldable pub dispatch_window : SlidingWindow T → Outcome (SlidingWindow T)
    dispatch_window sw =
        let (elements, sw') = extract_window_elements (record sw { queue = sort sw.queue }) in
        send_window elements sw'

    close_out : SlidingWindow T → Outcome (SlidingWindow T)
    close_out sw = elim (close sw.out) [
      | ok c ↦ ok (record sw { out = c })
      | panic e c ↦ panic e (record sw { out = c })
    ]

    -- `emit` when `done` is closed: before its timer has fired it returns at once, later it dispatches
    -- one more window; the deferred `close(sw.out)` follows.
    unfoldable pub on_done : Bool → SlidingWindow T → Outcome (SlidingWindow T)
    unfolding close_out
    on_done started sw =
        if started then dispatch_window sw >>= (λ sw'. close_out sw') else close_out sw

    -- `stream` and `emit` after the first element, until the input ends.
    unfoldable pub run : List (Event T) → Bool → SlidingWindow T → Outcome (SlidingWindow T)
    run [] started sw = on_done started sw
    run (arrive now e ∷ evs) started sw = run evs started (process_element now e sw)
    run (timer ∷ evs) started sw = run evs true sw
    run (tick ∷ evs) started sw =
        (if started then dispatch_window sw else ok sw) >>= λ sw'. run evs started sw'

    -- `stream`, with the first element and its two readings of the clock, if there is any, and what
    -- follows it; `none` is the division by zero.
    unfoldable pub stream :
        ℕ
        → Option (ℕ × ℕ × T)
        → List (Event T)
        → SlidingWindow T
        → Option (Outcome (SlidingWindow T))
    unfolding first_element run close_out
    stream epoch none evs sw = some (close_out sw)
    stream epoch (some (now, now', e)) evs sw = elim (first_element epoch now now' e sw) [
      | none ↦ none
      | some (sw', delta) ↦ some (run evs false sw')
    ]

-- `transmit`, over what `out` delivers
unfoldable pub transmit : {T : Type 0} → List (List T) → Chan (List T) → Outcome (Chan (List T))
unfolding forward
transmit windows inlet = forward windows inlet
