-- ===== src/Extension/Message.antt =====
-- The dynamic types that the sinks tell apart, and the draining of a channel (extension/utils.go).
use go_streams.Prelude.{ℕ, Option, none, some, List, [], ◌∷◌, ◌≡◌, refl}

-- An element by its dynamic type. Strings and byte slices are lists of bytes, and a `fmt.Stringer` is
-- given by what its `String()` returns.
pub data Message : Type 0 where
  bytes string stringer : List ℕ → Message
  other : Message

-- The type switch of a sink; `none` is its `default`.
unfoldable pub to_bytes : Message → Option (List ℕ)
to_bytes (bytes b) = some b
to_bytes (string b) = some b
to_bytes (stringer b) = some b
to_bytes other = none

-- `drainChan`: what is left of the elements that the channel delivers until it is closed.
unfoldable pub drain_chan {ℓ} : {A : Type ℓ} → List A → List A
drain_chan [] = []
drain_chan (e ∷ es) = drain_chan es

pub drain_chan_lem {ℓ} : {A : Type ℓ} (es : List A) → drain_chan es ≡ []
unfolding drain_chan
drain_chan_lem [] = refl
drain_chan_lem (e ∷ es) = drain_chan_lem es
