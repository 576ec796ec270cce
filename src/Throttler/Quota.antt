-- ===== src/Throttler/Quota.antt =====
-- How many elements a throttler lets pass between two resets of its counter (flow/throttler.go).
use go_streams.Prelude.{◌+◌, ◌≤◌, some, List, ◌≡◌, arith, length, ℤ, magnitude}
use go_streams.Throttler.{
  ThrottleMode, Throttler, new_throttler, Step, read, put, drop, close_queue, start_ticker, reset,
  signal, skip_signal, quit, take, within, exceeded, arrive, admit, forward, close_done,
  close_inlet, Reach, here, next,
}
use go_streams.Throttler.Inv.{Reach-Control, new_throttler-Control}

module _ {Any : Type 0} where
  -- The fields that no goroutine writes.
  pub record IsSameSetup (s t : Throttler Any) : Type 0 where
    pub same_max : t.max_elements ≡ s.max_elements
    pub same_size : t.buffer_size ≡ s.buffer_size
    pub same_mode : t.mode ≡ s.mode
    pub same_period : t.period ≡ s.period

  Step-IsSameSetup : {s t : Throttler Any} → Step s t → IsSameSetup s t
  Step-IsSameSetup (read h e) = ground arith
  Step-IsSameSetup (put h lt) = ground arith
  Step-IsSameSetup (drop h m le) = ground arith
  Step-IsSameSetup (close_queue h e) = ground arith
  Step-IsSameSetup (start_ticker h p) = ground arith
  Step-IsSameSetup (reset h) = ground arith
  Step-IsSameSetup (signal h e) = ground arith
  Step-IsSameSetup (skip_signal h e) = ground arith
  Step-IsSameSetup (quit h e) = ground arith
  Step-IsSameSetup (take h e) = ground arith
  Step-IsSameSetup (within h e) = ground arith
  Step-IsSameSetup (exceeded h e) = ground arith
  Step-IsSameSetup (arrive h) = ground arith
  Step-IsSameSetup (admit h) = ground arith
  Step-IsSameSetup (forward h e) = ground arith
  Step-IsSameSetup (close_done h e f) = ground arith
  Step-IsSameSetup (close_inlet h e) = ground arith

  pub Reach-IsSameSetup : {s t : Throttler Any} → Reach s t → IsSameSetup s t
  Reach-IsSameSetup here = ground arith
  Reach-IsSameSetup (next r st) = ground (arith, Reach-IsSameSetup r, Step-IsSameSetup st)

  -- In every state that a throttler can reach, at most one element more than the configured number
  -- has been counted since the counter was last reset, and the buffered channel holds at most its
  -- configured number of elements.
  pub quota_bound :
      (elements period : ℤ) (size : ℤ) (mode : ThrottleMode) (given : List Any)
      {s t : Throttler Any}
      → new_throttler elements period size mode given ≡ some s
      → Reach s t
      → (t.counter ≤ magnitude elements + 1) × (length t.queue ≤ magnitude size)
  unfolding new_throttler
  quota_bound elements period size mode given {s} {t} made r = ground (
    arith,
    Reach-Control (new_throttler-Control elements period size mode given made) r,
    Reach-IsSameSetup r,
  )
