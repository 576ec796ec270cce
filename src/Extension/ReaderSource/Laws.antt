-- ===== src/Extension/ReaderSource/Laws.antt =====
-- What a ReaderSource sends (extension/source_reader.go).
use go_streams.Prelude.{
  ℕ, Bool, true, false, List, [], ◌∷◌, ◌++◌, ◌≡◌, refl, arith, append-nil, append_assoc, ◌||◌,
}
use go_streams.Channel.{ok, make_chan}
use go_streams.Extension.ReaderSource.{Read, parsed, eof, failed, Turn, emit_element, process}

-- What one emission adds.
abbrev pub emitted : List ℕ → Bool → List (List ℕ)
emitted [] live = []
emitted (b ∷ bs) false = []
emitted (b ∷ bs) true = (b ∷ bs) ∷ []

-- The elements of the turns up to the first that is cancelled or fails, or that has the end of the
-- input, the last one's bytes included.
abbrev pub elements_read : List Turn → List (List ℕ)
elements_read [] = []
elements_read (turn ∷ turns) = elim turn.cancelled [
  | true ↦ []
  | false ↦ elim turn.read [
    | parsed b ↦ emitted b turn.live ++ elements_read turns
    | eof b ↦ emitted b turn.live
    | failed b ↦ []
  ]
]

-- Whether a turn ends the loop: the context is cancelled, or the reader is at the end of its input or
-- fails.
abbrev pub is_last : Turn → Bool
is_last turn = elim turn.cancelled [
  | true ↦ true
  | false ↦ elim turn.read [ parsed b ↦ false | eof b ↦ true | failed b ↦ true ]
]

abbrev pub has_ended : List Turn → Bool
has_ended [] = false
has_ended (turn ∷ turns) = is_last turn || has_ended turns

emit_element_lem :
    (b : List ℕ) (live : Bool) (h : List (List ℕ))
    → emit_element b live (record { history = h; closed = false })
      ≡ ok (record { history = h ++ emitted b live; closed = false })
unfolding emit_element
emit_element_lem [] live h = rw append-nil
emit_element_lem (b ∷ bs) false h = rw append-nil
emit_element_lem (b ∷ bs) true h = refl

process_lem :
    (turns : List Turn) (h : List (List ℕ))
    → process turns (record { history = h; closed = false })
      ≡ ok (record { history = h ++ elements_read turns; closed = has_ended turns })
unfolding process
process_lem [] h = rw append-nil
process_lem (turn ∷ turns) h = by_turn (process_lem turns) turn.cancelled turn.read refl refl
  where
    reads_to : List Turn → List (List ℕ) → Type 0
    reads_to l h' =
        process l (record { history = h'; closed = false })
        ≡ ok (record { history = h' ++ elements_read l; closed = has_ended l })

    by_turn :
        ((h' : List (List ℕ)) → reads_to turns h')
        → (c : Bool) (r : Read) → turn.cancelled ≡ c
        → turn.read ≡ r
        → reads_to (turn ∷ turns) h
    by_turn later true r ec er = ground (arith, append-nil h)
    by_turn later false (parsed b) ec er = ground (
      arith,
      emit_element_lem b turn.live h,
      later (h ++ emitted b turn.live),
      append_assoc h (emitted b turn.live) (elements_read turns),
    )
    by_turn later false (eof b) ec er = ground (arith, emit_element_lem b turn.live h)
    by_turn later false (failed b) ec er = ground (arith, append-nil h)

-- A ReaderSource sends what its element reader parses, in order, without empty elements and those
-- that come when the context is cancelled. It goes on until a turn finds the context cancelled, the
-- reader fails, or the input ends, whose last bytes it still sends; and it closes its channel exactly
-- when one of these has happened.
reader_source_lem :
    (turns : List Turn)
    → process turns make_chan
      ≡ ok (record { history = elements_read turns; closed = has_ended turns })
reader_source_lem turns = process_lem turns []
