-- ===== src/Throttler/Liveness.antt =====
-- How a throttler comes to its end (flow/throttler.go).
use go_streams.Prelude.{
  ℕ, ◌+◌, ◌*◌, ◌≤◌, ◌<◌, true, false, some, List, ◌≡◌, arith, length, ℤ, nonpositive,
}
use go_streams.Throttler.{
  ThrottleMode, Ingest, reading, holding, finished, Resetter, unstarted, ticking, notifying, exited,
  Streamer, ranging, checking, arriving, waiting, admitting, forwarding, closing, ended, Throttler,
  new_throttler, is_done, Step, Crash, bad_ticker,
}

-- A reset comes before its signal.
abbrev resetter_rank : Resetter → ℕ
resetter_rank notifying = 0
resetter_rank ticking = 1
resetter_rank exited = 0
resetter_rank unstarted = 2

module _ {Any : Type 0} where
  -- The channel has room for an element, the period is positive, and the counter is reset until the streamer is done.
  record Ready (s : Throttler Any) : Type 0 where
    roomy : 1 ≤ s.buffer_size
    timely : nonpositive s.period ≡ false
    resets : s.resetter ≡ exited → is_done s.streamer ≡ true

  -- How far the goroutines are from the end.
  abbrev ingest_rank : Ingest Any → ℕ
  ingest_rank finished = 0
  ingest_rank reading = 1
  ingest_rank (holding e) = 9

  abbrev streamer_rank : Streamer Any → ℕ
  streamer_rank ended = 0
  streamer_rank closing = 1
  streamer_rank ranging = 2
  streamer_rank (forwarding e) = 3
  streamer_rank (admitting e) = 4
  streamer_rank (waiting e) = 6
  streamer_rank (arriving e) = 7
  streamer_rank (checking e) = 8

  abbrev rank : Throttler Any → ℕ
  rank s =
      10 * length s.input
      + ingest_rank s.ingest
      + 7 * length s.queue
      + streamer_rank s.streamer
      + resetter_rank s.resetter

  -- A step that brings the end nearer.
  abbrev Advances : Throttler Any → Type 0
  Advances s = (t : Throttler Any) × Step s t × (rank t < rank s)

-- With a period that is not positive the program dies where a throttler starts.
new_throttler-Crash :
    {Any : Type 0} (elements period size : ℤ) (mode : ThrottleMode) (given : List Any)
    {s : Throttler Any}
    → new_throttler elements period size mode given ≡ some s
    → nonpositive period ≡ true
    → Crash s
unfolding new_throttler
new_throttler-Crash elements period size mode given made bad =
    bad_ticker (grind arith) (grind arith)
