-- ===== src/Extension/FileSource.antt =====
-- extension/file.go, the FileSource: sends the lines of a file.
pub mod Laws
use go_streams.Prelude.{ℕ, Bool, true, false, Option, none, some, List, [], ◌∷◌}
use go_streams.Channel.{Chan, Outcome, ok, ◌>>=◌, send, close, forward}

-- A turn of the loop: the line that the scanner gives, and whether `ctx.Done()` is ready then.
pub record Turn : Type 0 where
  pub line : List ℕ
  pub cancelled : Bool

-- The loop of `process`, over the turns until `Scan` is false.
scan_loop : List Turn → Chan (List ℕ) → Outcome (Chan (List ℕ))
scan_loop [] c = ok c
scan_loop (turn ∷ turns) c = elim turn.cancelled [
  | true ↦ ok c
  | false ↦ send turn.line c >>= λ c'. scan_loop turns c'
]

-- `process`: `file` is what the opened file gives, or the failure of `os.Open`; the deferred
-- `close(fs.in)` comes on every path.
unfoldable pub process : Option (List Turn) → Chan (List ℕ) → Outcome (Chan (List ℕ))
unfolding scan_loop
process none c = close c
process (some turns) c = scan_loop turns c >>= λ c'. close c'

-- `Via`, over what `Out()` delivers
unfoldable pub via : List (List ℕ) → Chan (List ℕ) → Outcome (Chan (List ℕ))
unfolding forward
via es inlet = forward es inlet
