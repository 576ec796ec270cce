-- ===== src/SlidingWindow/Boundary.antt =====
-- Where the first window starts (flow/sliding_window.go, calculateWindowStart), and what that means
-- for the element that sets it.
use native.Mathlib.Nat.{mul-mod_right, div-add-mod}
use go_streams.Prelude.{
  false, sub, ℕ, ◌+◌, ◌-◌, ◌*◌, ◌/◌, ◌%◌, ◌≤◌, ◌<◌, some, [], ◌∷◌, ◌++◌, ◌≡◌, ◌≢◌, refl, arith, ℤ,
  pos, neg,
}
use go_streams.SlidingWindow.{
  SlidingWindow, event_time_of, calculate_window_start, first_element, initial_delay,
}

-- A number less its remainder is a multiple.
sub-mod-mod : (a s : ℕ) → (a - a % s) % s ≡ 0
sub-mod-mod a s = rw whole (mul-mod_right s (a / s))
  where
    whole : a - a % s ≡ s * (a / s)
    whole = omega (arith, div-add-mod a s)

sub_eq : (a b c d : ℕ) → a + d ≡ c + b → sub a b ≡ sub c d
sub_eq a b c d h = ground arith

module _ {T : Type 0} (epoch : ℕ) (sw : SlidingWindow T) where
  -- For an event time from 1970 on, the window start is the last point on the grid of the sliding
  -- interval (counted from 1970) that is not after the event time, and `delta` is the time between
  -- them. The interval is not 0, or there is no result.
  window_start_bounds :
      (time start : ℕ) (delta : ℤ)
      → 0 < time
      → epoch ≤ time
      → calculate_window_start epoch sw time ≡ some (start, delta)
      → (0 < sw.sliding_interval)
        × (epoch ≤ start)
        × (start ≤ time)
        × (time < start + sw.sliding_interval)
        × ((start - epoch) % sw.sliding_interval ≡ 0)
        × (delta ≡ pos (time - start))
  unfolding calculate_window_start
  window_start_bounds time start delta positive late e =
      grind (arith, sub-mod-mod (time - epoch) sw.sliding_interval)

  -- Without partial windows, for an event time from 1970 on, and with a sliding interval not above
  -- the window size, the initial delay is the end of the first window plus the allowed lateness, less
  -- the event time and one sliding interval, after which the first tick comes.
  initial_delay_lem :
      (time start : ℕ) (delta : ℤ)
      → 0 < time
      → epoch ≤ time
      → sw.sliding_interval ≤ sw.window_size
      → sw.opts.emit_partial_window ≡ false
      → calculate_window_start epoch sw time ≡ some (start, delta)
      → initial_delay sw delta
        ≡ sub (start + sw.window_size + sw.opts.allowed_lateness) (time + sw.sliding_interval)
  unfolding initial_delay
  initial_delay_lem time start delta positive late fits full made =
      let (_, _, ordered, _, _, apart) = window_start_bounds time start delta positive late made in
      ground (
        arith,
        full,
        apart,
        sub_eq (sw.opts.allowed_lateness + (sw.window_size - sw.sliding_interval)) (time - start)
            (start + sw.window_size + sw.opts.allowed_lateness) (time + sw.sliding_interval)
            (omega arith),
      )

  module _ (now now' : ℕ) (e : T) (extract : T → ℕ)
      (event_time : sw.opts.event_time_extractor ≡ some extract) where
    -- A first element with an event time from 1970 on is stored behind the queue, with that time.
    first_element_stored :
        (sw' : SlidingWindow T) (delta : ℤ)
        → 0 < extract e
        → epoch ≤ extract e
        → first_element epoch now now' e sw ≡ some (sw', delta)
        → sw'.queue ≡ sw.queue ++ (record { element = e; event_time = extract e } ∷ [])
    unfolding first_element event_time_of
    first_element_stored sw' delta positive late made = grind arith

    -- A first element with an event time before 1970 (but not Go's zero time) that is off the grid of
    -- the sliding interval is dropped: its window is taken to start after it, because Go's remainder is
    -- negative there. The interval is above 0.
    pub first_element_dropped :
        0 < extract e
        → extract e < epoch
        → (epoch - extract e) % sw.sliding_interval ≢ 0
        → 0 < sw.sliding_interval
        → (sw' : SlidingWindow T) × (delta : ℤ) × (first_element epoch now now' e sw
            ≡ some (sw', delta))
          × (sw'.queue ≡ sw.queue)
          × (extract e < sw'.lower_boundary)
    unfolding first_element event_time_of
    first_element_dropped positive early off_grid interval = (
      record sw { lower_boundary = extract e + d },
      neg d,
      ground (arith, event_time),
      refl,
      omega arith,
    )
      where
        d : ℕ
        d = (epoch - extract e) % sw.sliding_interval
