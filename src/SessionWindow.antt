-- ===== src/SessionWindow.antt =====
-- flow/session_window.go: windows that a gap of inactivity closes. `receive` and `emit` are two
-- goroutines that share the buffer under a mutex and meet at the channels `reset` and `done`.
--
-- A step is one operation of one goroutine; what runs under the mutex is one step, but for the send
-- of a window, during which the emitter keeps the mutex. The timer may fire whenever it is armed,
-- which covers every timing. `input` is what the upstream has yet to send before it closes `in`.
mod Inv
pub mod Laws
pub mod LostReset
pub mod Refine
use go_streams.Prelude.{ℕ, Bool, true, false, Option, none, some, List, [], ◌∷◌, ◌++◌, ◌≡◌, ◌≢◌}
use go_streams.Channel.{Chan, Outcome, make_chan, forward}

-- Where `receive` stands.
pub data Receiver {ℓ} (Any : Type ℓ) : Type ℓ where
  reading : Receiver Any  -- at `range sw.in`
  holding : Any → Receiver Any  -- with an element, before `mu.Lock()`
  notifying : Receiver Any  -- before the `select` of `notifyTimerReset`
  finished : Receiver Any  -- after `close(sw.done)`

-- Where `emit` stands.
pub data Emitter {ℓ} (T : Type ℓ) : Type ℓ where
  looping : Emitter T  -- on the way to the `select`
  selecting : Emitter T  -- waiting in the `select`
  sending : (window : List T) (last : Bool) → Emitter T  -- in `dispatchWindow`, with the mutex
  closing : Emitter T  -- before `close(sw.out)`
  stopped : Emitter T

pub record SessionWindow (Any T : Type 0) : Type 0 where
  pub inactivity_gap : ℕ
  pub buffer : List T
  pub input : List Any
  pub out : Chan (List T)
  pub armed : Bool  -- whether the timer runs, or has fired unnoticed
  pub receiver : Receiver Any
  pub emitter : Emitter T

-- `NewSessionWindow`; `emit` starts with its timer armed.
unfoldable pub new_session_window : {Any T : Type 0} → ℕ → List Any → SessionWindow Any T
new_session_window gap given = record {
  inactivity_gap = gap;
  buffer = [];
  input = given;
  out = make_chan;
  armed = true;
  receiver = reading;
  emitter = looping;
}

-- Where `emit` goes after `dispatchWindow`: back to the loop, or on to `close(sw.out)`.
abbrev pub after_dispatch : {T : Type 0} → Bool → Emitter T
after_dispatch true = closing
after_dispatch false = looping

-- `dispatchWindow` up to the send: it takes the buffer, and sends it unless it is empty.
abbrev pub take_window : {T : Type 0} → List T → Bool → Emitter T
take_window [] last = after_dispatch last
take_window (x ∷ xs) last = sending (x ∷ xs) last

abbrev pub has_mutex : {T : Type 0} → Emitter T → Bool
has_mutex (sending window last) = true
has_mutex _ = false

abbrev pub dispatched : {Any T : Type 0} → SessionWindow Any T → Bool → SessionWindow Any T
dispatched s last = record s { buffer = []; emitter = take_window s.buffer last }

module _ {Any T : Type 0} (assert : Any → Option T) where
  pub data Step (s : SessionWindow Any T) : SessionWindow Any T → Type 0 where
    read :
        {e : Any} {es : List Any}
        → s.receiver ≡ reading
        → s.input ≡ e ∷ es
        → Step s (record s { input = es; receiver = holding e })
    append :
        {e : Any} {t : T}
        → s.receiver ≡ holding e
        → has_mutex s.emitter ≡ false
        → assert e ≡ some t
        → Step s (record s { buffer = s.buffer ++ (t ∷ []); receiver = notifying })
    notify :
        s.receiver ≡ notifying
        → s.emitter ≡ selecting
        → Step s (record s { armed = true; receiver = reading; emitter = looping })
    skip_notify :
        s.receiver ≡ notifying → s.emitter ≢ selecting → Step s (record s { receiver = reading })
    finish : s.receiver ≡ reading → s.input ≡ [] → Step s (record s { receiver = finished })
    enter : s.emitter ≡ looping → Step s (record s { emitter = selecting })
    timeout :
        s.emitter ≡ selecting
        → s.armed ≡ true
        → Step s (dispatched (record s { armed = false }) false)
    last_window :
        s.emitter ≡ selecting
        → s.receiver ≡ finished
        → Step s (dispatched (record s { armed = false }) true)
    send_window :
        {window : List T} {last : Bool}
        → s.emitter ≡ sending window last
        → s.out.closed ≡ false
        → Step s (record s {
          out = record { history = s.out.history ++ (window ∷ []); closed = false };
          emitter = after_dispatch last;
        })
    close_out :
        s.emitter ≡ closing
        → s.out.closed ≡ false
        → Step s (record s {
          out = record { history = s.out.history; closed = true };
          emitter = stopped;
        })

  -- A state in which a goroutine panics.
  pub data Crash (s : SessionWindow Any T) : Type 0 where
    bad_element : {e : Any} → s.receiver ≡ holding e → assert e ≡ none → Crash s
    late_send :
        {window : List T} {last : Bool}
        → s.emitter ≡ sending window last
        → s.out.closed ≡ true
        → Crash s
    late_close : s.emitter ≡ closing → s.out.closed ≡ true → Crash s

  pub data Reach (s : SessionWindow Any T) : SessionWindow Any T → Type 0 where
    here : Reach s s
    next : {t u : SessionWindow Any T} → Reach s t → Step t u → Reach s u

-- `transmit`, over what `out` delivers
unfoldable pub transmit : {T : Type 0} → List (List T) → Chan (List T) → Outcome (Chan (List T))
unfolding forward
transmit windows inlet = forward windows inlet
