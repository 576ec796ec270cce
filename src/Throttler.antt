-- ===== src/Throttler.antt =====
-- flow/throttler.go: at most so many elements in each period. Three goroutines take part: `buffer`
-- moves elements from `in` to the buffered channel `out`, `resetQuotaCounterLoop` resets the counter
-- and signals, and `streamPortioned` (which `Via` or `To` starts, here once) takes the elements on.
--
-- A step is one operation of one goroutine. The ticker may fire at any time. `input` is what the
-- upstream has yet to send before it closes `in`.
mod Inv
pub mod Quota
pub mod Overshoot
pub mod Liveness
pub mod Delivery
use go_streams.Prelude.{
  ℕ, ◌+◌, ◌≤◌, ◌<◌, Bool, true, false, Option, none, some, List, [], ◌∷◌, ◌++◌, ◌≡◌, ◌≢◌, length, ℤ,
  nonpositive, magnitude, if◌then◌else◌, ◌||◌,
}
use go_streams.Channel.{Chan, make_chan}

-- `ThrottleMode` is an int8; `other` stands for its unsupported values.
pub data ThrottleMode : Type 0 where
  backpressure discard : ThrottleMode
  other : ℕ → ThrottleMode

-- Where `buffer` stands.
pub data Ingest {ℓ} (Any : Type ℓ) : Type ℓ where
  reading : Ingest Any  -- at `range th.in`
  holding : Any → Ingest Any  -- before the send on `th.out`
  finished : Ingest Any  -- after `close(th.out)`

-- Where `resetQuotaCounterLoop` stands.
pub data Resetter : Type 0 where
  unstarted : Resetter  -- before `time.NewTicker`
  ticking notifying exited : Resetter  -- at the `select`, in `notifyQuotaReset`, returned

-- Where `streamPortioned` stands.
pub data Streamer {ℓ} (Any : Type ℓ) : Type ℓ where
  ranging : Streamer Any  -- at `range th.out`
  checking : Any → Streamer Any  -- before `th.quotaExceeded()`
  arriving : Any → Streamer Any  -- told that the quota is exceeded, before `<-th.quotaSignal`
  waiting : Any → Streamer Any  -- at `<-th.quotaSignal`
  admitting : Any → Streamer Any  -- before `th.counter.Add(1)`
  forwarding : Any → Streamer Any  -- before the send on the inlet
  closing : Streamer Any  -- after `close(th.done)`
  ended : Streamer Any  -- after `close(inlet.In())`

pub record Throttler (Any : Type 0) : Type 0 where
  pub period : ℤ
  pub mode : ThrottleMode
  pub max_elements : ℕ
  pub buffer_size : ℕ
  pub counter : ℕ
  pub input : List Any
  pub queue : List Any  -- what the buffered channel `out` holds
  pub inlet : Chan Any
  pub ingest : Ingest Any
  pub resetter : Resetter
  pub streamer : Streamer Any

abbrev unsupported : ThrottleMode → Bool
unsupported (other _) = true
unsupported _ = false

-- The literal of `NewThrottler`.
abbrev pub initial : {Any : Type 0} → ℕ → ℤ → ℕ → ThrottleMode → List Any → Throttler Any
initial max_elements period buffer_size mode given = record {
  period = period;
  mode = mode;
  max_elements = max_elements;
  buffer_size = buffer_size;
  counter = 0;
  input = given;
  queue = [];
  inlet = make_chan;
  ingest = reading;
  resetter = unstarted;
  streamer = ranging;
}

-- `NewThrottler`; `none` is one of its panics.
unfoldable pub new_throttler :
    {Any : Type 0} → ℤ → ℤ → ℤ → ThrottleMode → List Any → Option (Throttler Any)
new_throttler elements period buffer_size mode given =
    if nonpositive elements || nonpositive buffer_size || unsupported mode
    then none
    else some (initial (magnitude elements) period (magnitude buffer_size) mode given)

-- `close(th.done)` has been called.
abbrev pub is_done : {Any : Type 0} → Streamer Any → Bool
is_done closing = true
is_done ended = true
is_done _ = false

abbrev pub is_waiting : {Any : Type 0} → Streamer Any → Bool
is_waiting (waiting e) = true
is_waiting _ = false

pub data Step {Any : Type 0} (s : Throttler Any) : Throttler Any → Type 0 where
  read :
      {e : Any} {es : List Any}
      → s.ingest ≡ reading
      → s.input ≡ e ∷ es
      → Step s (record s { input = es; ingest = holding e })
  put :
      {e : Any}
      → s.ingest ≡ holding e
      → length s.queue < s.buffer_size
      → Step s (record s { queue = s.queue ++ (e ∷ []); ingest = reading })
  drop :
      {e : Any}
      → s.ingest ≡ holding e
      → s.mode ≡ discard
      → s.buffer_size ≤ length s.queue
      → Step s (record s { ingest = reading })
  close_queue : s.ingest ≡ reading → s.input ≡ [] → Step s (record s { ingest = finished })
  start_ticker :
      s.resetter ≡ unstarted
      → nonpositive s.period ≡ false
      → Step s (record s { resetter = ticking })
  reset : s.resetter ≡ ticking → Step s (record s { counter = 0; resetter = notifying })
  signal :
      {e : Any}
      → s.resetter ≡ notifying
      → s.streamer ≡ waiting e
      → Step s (record s { resetter = ticking; streamer = admitting e })
  skip_signal :
      s.resetter ≡ notifying
      → is_waiting s.streamer ≡ false
      → Step s (record s { resetter = ticking })
  quit : s.resetter ≡ ticking → is_done s.streamer ≡ true → Step s (record s { resetter = exited })
  take :
      {e : Any} {es : List Any}
      → s.streamer ≡ ranging
      → s.queue ≡ e ∷ es
      → Step s (record s { queue = es; streamer = checking e })
  within :
      {e : Any}
      → s.streamer ≡ checking e
      → s.counter < s.max_elements
      → Step s (record s { streamer = admitting e })
  exceeded :
      {e : Any}
      → s.streamer ≡ checking e
      → s.max_elements ≤ s.counter
      → Step s (record s { streamer = arriving e })
  arrive : {e : Any} → s.streamer ≡ arriving e → Step s (record s { streamer = waiting e })
  admit :
      {e : Any}
      → s.streamer ≡ admitting e
      → Step s (record s { counter = s.counter + 1; streamer = forwarding e })
  forward :
      {e : Any}
      → s.streamer ≡ forwarding e
      → s.inlet.closed ≡ false
      → Step s (record s {
        inlet = record { history = s.inlet.history ++ (e ∷ []); closed = false };
        streamer = ranging;
      })
  close_done :
      s.streamer ≡ ranging
      → s.queue ≡ []
      → s.ingest ≡ finished
      → Step s (record s { streamer = closing })
  close_inlet :
      s.streamer ≡ closing
      → s.inlet.closed ≡ false
      → Step s (record s {
        inlet = record { history = s.inlet.history; closed = true };
        streamer = ended;
      })

-- The panic that ends the program: `time.NewTicker` on a nonpositive period, in the goroutine that
-- `NewThrottler` starts.
pub data Crash {Any : Type 0} (s : Throttler Any) : Type 0 where
  bad_ticker : s.resetter ≡ unstarted → nonpositive s.period ≡ true → Crash s

pub data Reach {Any : Type 0} (s : Throttler Any) : Throttler Any → Type 0 where
  here : Reach s s
  next : {t u : Throttler Any} → Reach s t → Step t u → Reach s u
