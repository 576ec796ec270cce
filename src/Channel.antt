-- ===== src/Channel.antt =====
-- Channels as one sending goroutine sees them, and the panics of a stream goroutine.
-- Streams are the interfaces of streams.go; a goroutine is a function on the channel it sends on.
pub mod Forward
use go_streams.Prelude.{
  Bool, true, false, Option, none, some, List, [], ◌∷◌, ◌++◌, if◌then◌else◌, ◌≡◌, refl,
}

-- `history` is all that was sent so far: an unbuffered send returns when the receiver has it.
pub record Chan {ℓ} (A : Type ℓ) : Type ℓ where
  pub history : List A
  pub closed : Bool

-- `make(chan any)`
abbrev pub make_chan {ℓ} : {A : Type ℓ} → Chan A
make_chan = record { history = []; closed = false }

pub data Fault : Type 0 where
  send_on_closed close_of_closed bad_assertion nonpositive_ticker : Fault

-- `S` is the state that the goroutine leaves, also when it panics.
pub data Outcome {ℓ} (S : Type ℓ) : Type ℓ where
  ok : S → Outcome S
  panic : Fault → S → Outcome S

infixl 5 ◌>>=◌
abbrev pub ◌>>=◌ {ℓ} : {S : Type ℓ} → Outcome S → (S → Outcome S) → Outcome S
ok s >>= f = f s
panic e s >>= f = panic e s

-- `out <- a`
abbrev pub send {ℓ} : {A : Type ℓ} → A → Chan A → Outcome (Chan A)
send a c =
    if c.closed then panic send_on_closed c else ok (record c { history = c.history ++ (a ∷ []) })

-- `close(out)`
abbrev pub close {ℓ} : {A : Type ℓ} → Chan A → Outcome (Chan A)
close c = if c.closed then panic close_of_closed c else ok (record c { closed = true })

-- `element.(T)` in the middle of a body: the assertion panics, or hands its value on.
abbrev pub expect {ℓ κ} : {S : Type ℓ} {T : Type κ} → Option T → S → (T → Outcome S) → Outcome S
expect none s k = panic bad_assertion s
expect (some t) s k = k t

-- `for element := range out { inlet.In() <- element }; close(inlet.In())`, over the elements that
-- `out` delivers until it is closed. Every operator's `transmit` is this loop.
unfoldable pub forward {ℓ} : {A : Type ℓ} → List A → Chan A → Outcome (Chan A)
forward [] inlet = close inlet
forward (e ∷ es) inlet = do inlet' ← send e inlet; forward es inlet'

-- How a stream goroutine ends that has sent `outs`: it closes its channel, or it has panicked on an
-- element of another type.
abbrev pub conclude {ℓ} : {A : Type ℓ} → Bool → List A → Outcome (Chan A)
conclude true outs = ok (record { history = outs; closed = true })
conclude false outs = panic bad_assertion (record { history = outs; closed = false })

-- What was sent, however the goroutine ended.
abbrev pub sent {ℓ} : {A : Type ℓ} → Outcome (Chan A) → List A
sent (ok c) = c.history
sent (panic e c) = c.history

pub sent-conclude {ℓ} : {A : Type ℓ} (b : Bool) (outs : List A) → sent (conclude b outs) ≡ outs
sent-conclude true outs = refl
sent-conclude false outs = refl
