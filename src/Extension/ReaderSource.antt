-- ===== src/Extension/ReaderSource.antt =====
-- extension/source_reader.go: sends what an element reader parses from an io.Reader.
pub mod Laws
use go_streams.Prelude.{ℕ, Bool, true, false, Option, none, some, List, [], ◌∷◌}
use go_streams.Channel.{Chan, Outcome, ok, ◌>>=◌, make_chan, send, close, forward}
use go_streams.Extension.Options.{Options, Opt, apply_options}

-- What the element reader returns: bytes, bytes with io.EOF, or bytes with another error.
pub data Read : Type 0 where
  parsed : List ℕ → Read
  eof : List ℕ → Read
  failed : List ℕ → Read

-- A turn of the loop: whether `ctx.Done()` is ready, what the element reader returns, and whether
-- `ctx.Err()` is nil when the element is emitted.
pub record Turn : Type 0 where
  pub cancelled : Bool
  pub read : Read
  pub live : Bool

-- `NewReaderSource`, given its reader and element reader, each of which may be nil, and the defaults;
-- `none` is one of its errors.
unfoldable pub new_reader_source :
    {Logger Context S Reader ElementReader : Type 0}
    → Options Logger Context S
    → List (Opt Logger Context S)
    → Option Reader
    → Option ElementReader
    → Option (Options Logger Context S × Chan (List ℕ))
unfolding apply_options
new_reader_source defaults opts none element_reader = none
new_reader_source defaults opts (some reader) none = none
new_reader_source defaults opts (some reader) (some element_reader) =
    some (apply_options opts defaults, make_chan)

-- `emitElement`
emit_element : List ℕ → Bool → Chan (List ℕ) → Outcome (Chan (List ℕ))
emit_element [] live c = ok c
emit_element (b ∷ bs) false c = ok c
emit_element (b ∷ bs) true c = send (b ∷ bs) c

-- `process`, over the turns of its loop so far. Where the loop is left, the deferred
-- `close(s.out)` runs.
unfoldable pub process : List Turn → Chan (List ℕ) → Outcome (Chan (List ℕ))
unfolding emit_element
process [] c = ok c
process (turn ∷ turns) c = elim turn.cancelled [
  | true ↦ close c
  | false ↦ elim turn.read [
    | parsed b ↦ emit_element b turn.live c >>= λ c'. process turns c'
    | eof b ↦ emit_element b turn.live c >>= λ c'. close c'
    | failed b ↦ close c
  ]
]

-- `Via`, over what `Out()` delivers
unfoldable pub via : List (List ℕ) → Chan (List ℕ) → Outcome (Chan (List ℕ))
unfolding forward
via es inlet = forward es inlet
