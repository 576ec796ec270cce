-- ===== src/TumblingWindow.antt =====
-- flow/tumbling_window.go: windows of a fixed length. `receive` and `emit` are two goroutines that
-- share the buffer under a mutex; a ticker closes the windows.
--
-- A step is one operation of one goroutine; what runs under the mutex is one step, but for the send
-- of a window, during which the emitter keeps the mutex. A tick may come at any time. `input` is
-- what the upstream has yet to send before it closes `in`.
mod Inv
pub mod Laws
pub mod Refine
use go_streams.Prelude.{
  ℤ, nonpositive, Bool, true, false, Option, none, some, List, [], ◌∷◌, ◌++◌, ◌≡◌,
}
use go_streams.Channel.{Chan, Outcome, make_chan, forward}

-- Where `receive` stands.
pub data Receiver {ℓ} (Any : Type ℓ) : Type ℓ where
  reading : Receiver Any  -- at `range tw.in`
  holding : Any → Receiver Any  -- with an element, before `mu.Lock()`
  finished : Receiver Any  -- after `close(tw.done)`

-- Where `emit` stands.
pub data Emitter {ℓ} (T : Type ℓ) : Type ℓ where
  starting : Emitter T  -- before `time.NewTicker`
  selecting : Emitter T  -- at the `select`
  sending : (window : List T) (last : Bool) → Emitter T  -- in `dispatchWindow`, with the mutex
  closing : Emitter T  -- before `close(tw.out)`
  stopped : Emitter T

pub record TumblingWindow (Any T : Type 0) : Type 0 where
  pub window_size : ℤ
  pub buffer : List T
  pub input : List Any
  pub out : Chan (List T)
  pub receiver : Receiver Any
  pub emitter : Emitter T

-- `NewTumblingWindow`
unfoldable pub new_tumbling_window : {Any T : Type 0} → ℤ → List Any → TumblingWindow Any T
new_tumbling_window size given = record {
  window_size = size;
  buffer = [];
  input = given;
  out = make_chan;
  receiver = reading;
  emitter = starting;
}

-- Where `emit` goes after `dispatchWindow`: back to the loop, or on to `close(tw.out)`.
abbrev pub after_dispatch : {T : Type 0} → Bool → Emitter T
after_dispatch true = closing
after_dispatch false = selecting

-- `dispatchWindow` up to the send: it takes the buffer, and sends it unless it is empty.
abbrev pub take_window : {T : Type 0} → List T → Bool → Emitter T
take_window [] last = after_dispatch last
take_window (x ∷ xs) last = sending (x ∷ xs) last

abbrev pub has_mutex : {T : Type 0} → Emitter T → Bool
has_mutex (sending window last) = true
has_mutex _ = false

abbrev pub dispatched : {Any T : Type 0} → TumblingWindow Any T → Bool → TumblingWindow Any T
dispatched s last = record s { buffer = []; emitter = take_window s.buffer last }

module _ {Any T : Type 0} (assert : Any → Option T) where
  pub data Step (s : TumblingWindow Any T) : TumblingWindow Any T → Type 0 where
    read :
        {e : Any} {es : List Any}
        → s.receiver ≡ reading
        → s.input ≡ e ∷ es
        → Step s (record s { input = es; receiver = holding e })
    append :
        {e : Any} {t : T}
        → s.receiver ≡ holding e
        → has_mutex s.emitter ≡ false
        → assert e ≡ some t
        → Step s (record s { buffer = s.buffer ++ (t ∷ []); receiver = reading })
    finish : s.receiver ≡ reading → s.input ≡ [] → Step s (record s { receiver = finished })
    start_ticker :
        s.emitter ≡ starting
        → nonpositive s.window_size ≡ false
        → Step s (record s { emitter = selecting })
    tick : s.emitter ≡ selecting → Step s (dispatched s false)
    last_window : s.emitter ≡ selecting → s.receiver ≡ finished → Step s (dispatched s true)
    send_window :
        {window : List T} {last : Bool}
        → s.emitter ≡ sending window last
        → s.out.closed ≡ false
        → Step s (record s {
          out = record { history = s.out.history ++ (window ∷ []); closed = false };
          emitter = after_dispatch last;
        })
    close_out :
        s.emitter ≡ closing
        → s.out.closed ≡ false
        → Step s (record s {
          out = record { history = s.out.history; closed = true };
          emitter = stopped;
        })

  -- A state in which a goroutine panics.
  pub data Crash (s : TumblingWindow Any T) : Type 0 where
    bad_element : {e : Any} → s.receiver ≡ holding e → assert e ≡ none → Crash s
    late_send :
        {window : List T} {last : Bool}
        → s.emitter ≡ sending window last
        → s.out.closed ≡ true
        → Crash s
    bad_ticker : s.emitter ≡ starting → nonpositive s.window_size ≡ true → Crash s
    late_close : s.emitter ≡ closing → s.out.closed ≡ true → Crash s

  pub data Reach (s : TumblingWindow Any T) : TumblingWindow Any T → Type 0 where
    here : Reach s s
    next : {t u : TumblingWindow Any T} → Reach s t → Step t u → Reach s u

-- `transmit`, over what `out` delivers
unfoldable pub transmit : {T : Type 0} → List (List T) → Chan (List T) → Outcome (Chan (List T))
unfolding forward
transmit windows inlet = forward windows inlet
