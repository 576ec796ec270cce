-- ===== src/Programs/Reversal/Laws.antt =====
-- What the program of examples/file/main.go writes.
use mathlib.Core.List.{reverse, reverse-cons, reverse-reverse}
use mathlib.Core.Path.{subst}
use go_streams.Prelude.{
  ℕ, true, false, not, some, List, [], ◌∷◌, ◌++◌, ◌≡◌, ◌⊎◌, inl, inr, refl, ap, sym, ◌∙◌, arith,
  map, concat, append-nil, append_assoc, All, All-append,
}
use go_streams.Channel.{Chan, ok, make_chan, Outcome, panic}
use go_streams.Extension.Options.{Attempt}
use go_streams.Extension.Message.{Message, string, to_bytes}
use go_streams.Extension.WriterSink.{writer_closed, done_closed, Sink, fresh}
use go_streams.Extension.WriterSink.Laws.{cancelling, write_all}
use go_streams.Extension.FileSource
use go_streams.Extension.FileSource.{Turn}
use go_streams.Extension.FileSource.Laws.{lines_until_cancelled, file_source_lem}
use go_streams.Extension.FileSink
use go_streams.Extension.FileSink.Laws.{file_sink_lem}
use go_streams.Pipeline.{Chain, Crash, Runs, Run, Program, source}
use go_streams.Pipeline.Remains.{outputs, remains}
use go_streams.Pipeline.Safe.{accepts, IsSafe}
use go_streams.Pipeline.Operators.{
  stateless, via_flow, remains-via_flow, IsSafe-via_flow, remains-to_sink, IsSafe-to_sink,
}
use go_streams.Pipeline.Laws.{pipeline_complete}
use go_streams.Programs.Reversal.{
  Utf8, reverse_string, add_new_line, reverse_body, new_line_body, main,
}
use go_streams.Programs.Reversal.Swap.{reverse_runes_lem}

module _ (u : Utf8) where
  open u use {runes, text, IsRune, runes-IsRune, runes-text}

  -- A string from back to front.
  abbrev pub mirrored : List ℕ → List ℕ
  mirrored s = text (reverse (runes s))

  reverse_string_lem : (s : List ℕ) → reverse_string u s ≡ some (mirrored s)
  unfolding reverse_string
  reverse_string_lem s = ground (arith, reverse_runes_lem (runes s))

  All-reverse : (rs : List ℕ) → All IsRune rs → All IsRune (reverse rs)
  All-reverse [] h = tt
  All-reverse (r ∷ rs) h =
      subst (All IsRune) (sym (reverse-cons r rs))
        (All-append IsRune (reverse rs) (r ∷ []) (All-reverse rs h.1) (h.0, tt))

  mirrored-mirrored : (s : List ℕ) → mirrored (mirrored s) ≡ text (runes s)
  mirrored-mirrored s =
      ap (λ rs. text (reverse rs))
        (runes-text (reverse (runes s)) (All-reverse (runes s) (runes-IsRune s)))
      ∙ ap text (reverse-reverse (runes s))

  -- On a string that is what its code points encode, `reverseString` does not panic and returns the
  -- string from back to front; applied to that, it does not panic either and returns the string.
  pub reverse_string-reverse_string :
      (s : List ℕ)
      → text (runes s) ≡ s
      → (reverse_string u s ≡ some (mirrored s)) × (reverse_string u (mirrored s) ≡ some s)
  reverse_string-reverse_string s valid = (
    reverse_string_lem s,
    reverse_string_lem (mirrored s) ∙ ap some (mirrored-mirrored s ∙ valid),
  )

  outputs-reverse :
      (lines : List (List ℕ))
      → (outputs (stateless (reverse_body u)) tt (map string lines)
          ≡ map string (map mirrored lines))
        × (accepts (stateless (reverse_body u)) tt (map string lines) ≡ true)
  unfolding reverse_body
  outputs-reverse [] = (refl, refl)
  outputs-reverse (s ∷ lines) =
      let (sent, fine) = outputs-reverse lines in
      (ground (arith, reverse_string_lem s, sent), ground (arith, reverse_string_lem s, fine))

-- A line as a file has it.
abbrev pub with_line_feed : List ℕ → List ℕ
with_line_feed s = s ++ (10 ∷ [])

outputs-new_line :
    (lines : List (List ℕ))
    → (outputs (stateless new_line_body) tt (map string lines)
        ≡ map string (map with_line_feed lines))
      × (accepts (stateless new_line_body) tt (map string lines) ≡ true)
unfolding new_line_body add_new_line
outputs-new_line [] = (refl, refl)
outputs-new_line (s ∷ lines) =
    (ap (λ l. string (with_line_feed s) ∷ l) (outputs-new_line lines).0, (outputs-new_line lines).1)

-- A sink at its end, whose file has this content and was closed before `done`.
abbrev pub finished_with : List ℕ → Sink (List ℕ)
finished_with content = record {
  input = [];
  writer = content;
  cancelled = false;
  closings = writer_closed ∷ done_closed ∷ [];
}

-- A write to a file that does not fail.
abbrev pub append : List ℕ → Attempt (List ℕ)
append b content = (content ++ b, true)

write_all-append :
    (lines : List (List ℕ)) (content : List ℕ)
    → write_all append (map string lines) content ≡ (content ++ concat lines, true)
unfolding to_bytes
write_all-append [] content = ap (λ l. (l, true)) (sym (append-nil content))
write_all-append (s ∷ lines) content =
    write_all-append lines (content ++ s)
    ∙ ap (λ l. (l, true)) (append_assoc content s (concat lines))

module _ {Logger Context : Type 0} (logger : Logger) (context : Context) where
  -- What the FileSink leaves that has received `msgs` and could create its file.
  abbrev pub file_of : List Message → Sink (List ℕ)
  file_of msgs =
      FileSink.process append (cancelling append logger context) (some []) (fresh msgs [])

  file_of-strings :
      (lines : List (List ℕ)) → file_of (map string lines) ≡ finished_with (concat lines)
  file_of-strings lines =
      file_sink_lem append logger context (map string lines) [] (some [])
      ∙ ap
          (λ tried. record {
            input = [];
            writer = tried.0;
            cancelled = not tried.1;
            closings = writer_closed ∷ done_closed ∷ [];
          })
          (write_all-append lines [])

module _ (u : Utf8) where
  -- The goroutines up to the reversing worker.
  abbrev reversed : List (List ℕ) → Chain Message
  reversed lines = via_flow (source (map string lines)) (stateless (reverse_body u)) tt

  remains-reversed :
      (lines : List (List ℕ)) → remains (reversed lines) ≡ map string (map (mirrored u) lines)
  remains-reversed lines =
      remains-via_flow (source (map string lines)) (stateless (reverse_body u)) tt
      ∙ (outputs-reverse u lines).0

  remains-main :
      (lines : List (List ℕ))
      → remains (main u lines).chain ≡ map string (map with_line_feed (map (mirrored u) lines))
  remains-main lines =
      remains-to_sink (via_flow (reversed lines) (stateless new_line_body) tt)
      ∙ remains-via_flow (reversed lines) (stateless new_line_body) tt
      ∙ ap (outputs (stateless new_line_body) tt) (remains-reversed lines)
      ∙ (outputs-new_line (map (mirrored u) lines)).0

  IsSafe-main : (lines : List (List ℕ)) → IsSafe (main u lines).chain
  IsSafe-main lines = IsSafe-to_sink (via_flow (reversed lines) (stateless new_line_body) tt) (
      IsSafe-via_flow (reversed lines) (stateless new_line_body) tt
        (IsSafe-via_flow (source (map string lines)) (stateless (reverse_body u)) tt tt
          (outputs-reverse u lines).1)
        (ap (accepts (stateless new_line_body) tt) (remains-reversed lines)
          ∙ (outputs-new_line (map (mirrored u) lines)).1))

  module _ {Logger Context : Type 0} (logger : Logger) (context : Context) where
    -- The program that reverses the lines of a file, under every interleaving of its goroutines, where
    -- the file can be read to its end or up to a cancellation and no write fails: no goroutine
    -- panics, and either the sink is done, and the file that it leaves is the lines that were read,
    -- in order, each from back to front and followed by a line feed, or the program can go on.
    pub file_complete :
        (turns : List Turn) {c : Chan (List ℕ)} {k : ℕ} {p : Program Message}
        → FileSource.process (some turns) make_chan ≡ ok c
        → Runs k (main u c.history) p
        → (¬ Crash p.chain)
          × (((p.done ≡ true)
                × (file_of logger context p.sunk
                    ≡ finished_with (
                        concat
                          (map with_line_feed (map (mirrored u) (lines_until_cancelled turns))))))
              ⊎ ((q : Program Message) × Run p q))
    file_complete turns {c} {k} {p} read run =
        let (_, no_crash, all, result) =
          pipeline_complete (main u c.history).chain (IsSafe-main c.history) run in
        (
          no_crash,
          elim result [
            | inl (d, got) ↦ inl (
              d,
              ap (file_of logger context) (got ∙ remains-main c.history)
                  ∙ file_of-strings logger context (map with_line_feed (map (mirrored u) c.history))
                  ∙ ap
                      (λ lines.
                        finished_with (concat (map with_line_feed (map (mirrored u) lines))))
                      read_lines,
            )
            | inr q ↦ inr q
          ],
        )
      where
        history_of : Outcome (Chan (List ℕ)) → List (List ℕ)
        history_of (ok c') = c'.history
        history_of (panic e c') = c'.history

        read_lines : c.history ≡ lines_until_cancelled turns
        read_lines = ap history_of (sym read ∙ file_source_lem (some turns))
