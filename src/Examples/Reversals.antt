-- ===== src/Examples/Reversals.antt =====
-- The program that reverses lines, at a concrete input (examples/file/main.go).
use go_streams.Prelude.{ℕ, true, false, some, List, [], ◌∷◌, ◌≡◌, ◌⊎◌, refl, map, All, concat}
use go_streams.Channel.{ok, make_chan}
use go_streams.Extension.Message.{Message, string}
use go_streams.Extension.FileSource
use go_streams.Extension.FileSource.{Turn}
use go_streams.Extension.FileSource.Laws.{lines_until_cancelled}
use go_streams.Pipeline.{
  spent, via, closed, Program, Runs, here, ◌⨾◌, Run, work, sink_receive, sink_done, inner, receive,
  again, finish, close_out, close_source, source_gives, send, Crash,
}
use go_streams.Pipeline.Operators.{forwarder, stateless}
use go_streams.Programs.Reversal
use go_streams.Programs.Reversal.{Utf8, reverse_string, reverse_body, new_line_body}
use go_streams.Programs.Reversal.Laws.{
  mirrored, with_line_feed, reverse_string-reverse_string, file_of, finished_with, file_complete,
}

abbrev IsByte : ℕ → Type 0
IsByte r = Unit

All-IsByte : (b : List ℕ) → All IsByte b
All-IsByte [] = tt
All-IsByte (r ∷ b) = (tt, All-IsByte b)

-- Strings of which each byte is a code point.
abbrev ascii : Utf8
ascii = record {
  runes = λ b. b;
  text = λ rs. rs;
  IsRune = IsByte;
  runes-IsRune = All-IsByte;
  runes-text = λ rs h. refl;
}

reverse_string-reverse_string_example :
    (reverse_string ascii (97 ∷ 98 ∷ []) ≡ some (mirrored ascii (97 ∷ 98 ∷ [])))
    × (reverse_string ascii (mirrored ascii (97 ∷ 98 ∷ [])) ≡ some (97 ∷ 98 ∷ []))
reverse_string-reverse_string_example = reverse_string-reverse_string ascii (97 ∷ 98 ∷ []) refl

abbrev one_line : List Turn
one_line = record { line = 98 ∷ 97 ∷ []; cancelled = false } ∷ []

one_line-read :
    FileSource.process (some one_line) make_chan
    ≡ ok (record { history = (98 ∷ 97 ∷ []) ∷ []; closed = true })
unfolding FileSource.process
one_line-read = refl

abbrev file_end : Program Message
file_end = record {
  chain =
      (via
        (via
          (via (via (via spent (forwarder) tt closed) (stateless (reverse_body ascii)) tt closed)
            (forwarder) tt closed)
          (stateless new_line_body) tt closed)
        (forwarder) tt closed);
  sunk = string (97 ∷ 98 ∷ 10 ∷ []) ∷ [];
  done = true;
}

file_run : Runs 23 (Reversal.main ascii ((98 ∷ 97 ∷ []) ∷ [])) file_end
unfolding reverse_body new_line_body
file_run =
    here
    ⨾ work (inner (inner (inner (inner (receive source_gives refl)))))
    ⨾ work (inner (inner (inner (receive send refl))))
    ⨾ work (inner (inner (receive send refl)))
    ⨾ work (inner (receive send refl))
    ⨾ work (receive send refl)
    ⨾ sink_receive send
    ⨾ work again
    ⨾ work (inner again)
    ⨾ work (inner (inner again))
    ⨾ work (inner (inner (inner again)))
    ⨾ work (inner (inner (inner (inner again))))
    ⨾ work (inner (inner (inner (inner (inner close_source)))))
    ⨾ work (inner (inner (inner (inner (finish refl)))))
    ⨾ work (inner (inner (inner (inner close_out))))
    ⨾ work (inner (inner (inner (finish refl))))
    ⨾ work (inner (inner (inner close_out)))
    ⨾ work (inner (inner (finish refl)))
    ⨾ work (inner (inner close_out))
    ⨾ work (inner (finish refl))
    ⨾ work (inner close_out)
    ⨾ work (finish refl)
    ⨾ work close_out
    ⨾ sink_done refl

file_complete_example :
    (¬ Crash file_end.chain)
    × (((file_end.done ≡ true)
          × (file_of tt tt file_end.sunk
              ≡ finished_with (
                  concat
                    (map with_line_feed (map (mirrored ascii) (lines_until_cancelled one_line))))))
        ⊎ ((q : Program Message) × Run file_end q))
file_complete_example = file_complete ascii tt tt one_line one_line-read file_run
