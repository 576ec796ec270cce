-- ===== src/Extension/FileSource/Laws.antt =====
-- What a FileSource sends (extension/file.go).
use go_streams.Prelude.{
  ℕ, true, false, Option, none, some, List, [], ◌∷◌, ◌++◌, ◌≡◌, refl, arith, append-nil,
  append_assoc,
}
use go_streams.Channel.{ok, make_chan}
use go_streams.Extension.FileSource.{Turn, scan_loop, process}

-- The lines before the first turn that finds the context cancelled.
abbrev pub lines_until_cancelled : List Turn → List (List ℕ)
lines_until_cancelled [] = []
lines_until_cancelled (turn ∷ turns) = elim turn.cancelled [
  | true ↦ []
  | false ↦ turn.line ∷ lines_until_cancelled turns
]

-- The same for a file that may not open.
abbrev pub lines_of : Option (List Turn) → List (List ℕ)
lines_of none = []
lines_of (some turns) = lines_until_cancelled turns

scan_loop_lem :
    (turns : List Turn) (h : List (List ℕ))
    → scan_loop turns (record { history = h; closed = false })
      ≡ ok (record { history = h ++ lines_until_cancelled turns; closed = false })
unfolding scan_loop
scan_loop_lem [] h = rw append-nil
scan_loop_lem (turn ∷ turns) h = ground (
  arith,
  append-nil h,
  scan_loop_lem turns (h ++ turn.line ∷ []),
  append_assoc h (turn.line ∷ []) (lines_until_cancelled turns),
)

-- A FileSource sends the lines of its file in order, up to the first turn of the loop that finds
-- the context cancelled, and nothing if the file does not open; in each case it closes its channel.
pub file_source_lem :
    (file : Option (List Turn))
    → process file make_chan ≡ ok (record { history = lines_of file; closed = true })
unfolding process
file_source_lem none = refl
file_source_lem (some turns) = rw (scan_loop_lem turns [])
