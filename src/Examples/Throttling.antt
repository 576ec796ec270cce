-- ===== src/Examples/Throttling.antt =====
-- Runs of the throttler (flow/throttler.go).
use go_streams.Prelude.{
  ◌+◌, ◌≤◌, true, some, [], ◌∷◌, ◌≡◌, refl, arith, length, magnitude, pos, IsSubsequence,
}
use go_streams.Throttler.{
  backpressure, discard, Throttler, initial, new_throttler, finished, ended, read, put, close_queue,
  take, within, admit, forward, close_done, close_inlet, Reach, here, next,
}
use go_streams.Throttler.Quota.{quota_bound}
use go_streams.Throttler.Overshoot.{Overshoot, quota_exceeded}
use go_streams.Throttler.Delivery.{delivers-IsSubsequence, delivers_all}
use go_streams.Examples.Data.{Dynamic, number}

-- At most two elements in each period; one comes.
abbrev two_per_period : Throttler Dynamic
two_per_period = initial 2 (pos 100) 1 backpressure (number 7 ∷ [])

two_per_period-made :
    new_throttler (pos 2) (pos 100) (pos 1) backpressure (number 7 ∷ []) ≡ some two_per_period
unfolding new_throttler
two_per_period-made = refl

abbrev throttled : Throttler Dynamic
throttled = record two_per_period {
  counter = 1;
  input = [];
  inlet = record { history = number 7 ∷ []; closed = true };
  ingest = finished;
  streamer = ended;
}

throttle : Reach two_per_period throttled
throttle =
    next
      (next
        (next
          (next
            (next
              (next
                (next (next (next here (read refl refl)) (put refl (omega arith))) (take refl refl))
                (within refl (omega arith)))
              (admit refl))
            (forward refl refl))
          (close_queue refl refl))
        (close_done refl refl refl))
      (close_inlet refl refl)

quota_bound_example :
    (throttled.counter ≤ magnitude (pos 2) + 1) × (length throttled.queue ≤ magnitude (pos 1))
quota_bound_example =
    quota_bound (pos 2) (pos 100) (pos 1) backpressure (number 7 ∷ []) two_per_period-made throttle

delivers-IsSubsequence_example : IsSubsequence throttled.inlet.history (number 7 ∷ [])
delivers-IsSubsequence_example =
    delivers-IsSubsequence (pos 2) (pos 100) (pos 1) backpressure (number 7 ∷ [])
      two_per_period-made throttle

delivers_all_example : throttled.inlet.history ≡ number 7 ∷ []
delivers_all_example =
    delivers_all (pos 2) (pos 100) (pos 1) (number 7 ∷ []) two_per_period-made throttle refl

one_per_period-made :
    new_throttler (pos 1) (pos 100) (pos 1) discard (number 7 ∷ number 8 ∷ [])
    ≡ some (initial 1 (pos 100) 1 discard (number 7 ∷ number 8 ∷ []))
unfolding new_throttler
one_per_period-made = refl

quota_exceeded_example :
    Overshoot 1
      (number 7 ∷ [])
      (number 8)
      (initial 1 (pos 100) 1 discard (number 7 ∷ number 8 ∷ []))
quota_exceeded_example =
    quota_exceeded 1 (pos 100) (pos 1) discard (number 7 ∷ []) (number 8) [] one_per_period-made
      refl refl
