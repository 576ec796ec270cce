-- ===== src/Throttler/Inv.antt =====
-- What holds of a throttler between two steps.
use go_streams.Prelude.{
  ℕ, ◌+◌, ◌≤◌, Bool, true, false, some, List, [], ◌∷◌, ◌++◌, ◌≡◌, ap, arith, length, length-append,
  ℤ,
}
use go_streams.Throttler.{
  ThrottleMode, Ingest, holding, finished, notifying, Streamer, checking, arriving, waiting,
  admitting, forwarding, ended, Throttler, new_throttler, is_done, Step, read, put, drop,
  close_queue, start_ticker, reset, signal, skip_signal, quit, take, within, exceeded, arrive,
  admit, forward, close_done, close_inlet, Reach, here, next,
}

-- 1 between the decision to let an element pass and its count.
abbrev pub uncounted : {Any : Type 0} → Streamer Any → ℕ
uncounted (admitting e) = 1
uncounted _ = 0

-- The element that `buffer` has taken from `in` and not yet stored.
abbrev pub ingested : {Any : Type 0} → Ingest Any → List Any
ingested (holding e) = e ∷ []
ingested _ = []

-- The element that `streamPortioned` has taken from `out` and not yet sent.
abbrev pub carried : {Any : Type 0} → Streamer Any → List Any
carried (checking e) = e ∷ []
carried (arriving e) = e ∷ []
carried (waiting e) = e ∷ []
carried (admitting e) = e ∷ []
carried (forwarding e) = e ∷ []
carried _ = []

abbrev pub is_ended : {Any : Type 0} → Streamer Any → Bool
is_ended ended = true
is_ended _ = false

-- All elements in the throttler, in the order in which they leave it.
abbrev pub line : {Any : Type 0} → Throttler Any → List Any
line s = s.inlet.history ++ (carried s.streamer ++ (s.queue ++ (ingested s.ingest ++ s.input)))

pub record Control {Any : Type 0} (s : Throttler Any) : Type 0 where
  pub positive : 1 ≤ s.max_elements
  pub capped : s.counter ≤ s.max_elements + 1
  pub admitted : s.counter + uncounted s.streamer ≤ s.max_elements + 1
  pub signalled : s.resetter ≡ notifying → s.counter + uncounted s.streamer ≤ s.max_elements
  pub bounded : length s.queue ≤ s.buffer_size
  pub drained : is_done s.streamer ≡ true → (s.queue ≡ []) × (s.ingest ≡ finished)
  pub read_all : s.ingest ≡ finished → s.input ≡ []
  pub closed : s.inlet.closed ≡ is_ended s.streamer

module _ {Any : Type 0} where
  pub Step-Control : {s t : Throttler Any} → Step s t → Control s → Control t
  Step-Control (read h e) c = ground arith
  Step-Control {s} (put {e} h lt) c = ground (arith, length-append s.queue (e ∷ []))
  Step-Control (drop h m le) c = ground arith
  Step-Control (close_queue h e) c = ground arith
  Step-Control (start_ticker h p) c = ground arith
  Step-Control (reset h) c = ground arith
  Step-Control (signal h e) c = ground arith
  Step-Control (skip_signal h e) c = ground arith
  Step-Control (quit h e) c = ground arith
  Step-Control {s} (take h e) c = ground (arith, ap length e)
  Step-Control (within h e) c = ground arith
  Step-Control (exceeded h e) c = ground arith
  Step-Control (arrive h) c = ground arith
  Step-Control (admit h) c = ground arith
  Step-Control (forward h e) c = ground arith
  Step-Control (close_done h e f) c = ground arith
  Step-Control (close_inlet h e) c = ground arith

  pub new_throttler-Control :
      (elements : ℤ) (period : ℤ) (size : ℤ) (mode : ThrottleMode) (given : List Any)
      {s : Throttler Any}
      → new_throttler elements period size mode given ≡ some s
      → Control s
  unfolding new_throttler
  new_throttler-Control elements period size mode given made = grind arith

  pub Reach-Control : {s t : Throttler Any} → Control s → Reach s t → Control t
  Reach-Control c here = c
  Reach-Control c (next r st) = Step-Control st (Reach-Control c r)
