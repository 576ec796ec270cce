-- ===== src/Examples/Mazes.antt =====
-- The maze program at a concrete input (examples/maze/main.go).
use go_streams.Prelude.{ℕ, ◌<◌, true, some, [], ◌∷◌, ◌≡◌, ◌⊎◌, refl, map, pos, All}
use go_streams.Pipeline.{
  spent, via, closed, Program, Runs, here, ◌⨾◌, Run, work, sink_receive, sink_done, inner, receive,
  again, finish, close_out, close_source, source_gives, send, Crash,
}
use go_streams.Pipeline.Operators.{forwarder, stateless}
use go_streams.Programs.Maze
use go_streams.Programs.Maze.{
  Value, move_value, int_value, string_value, move, format, format_body, position_flow,
  position_fold, move_chan, generate_random_moves,
}
use go_streams.Programs.Maze.Walk.{line_at, walk, maze_complete}

-- A walk of one step to the right.
abbrev always_right : ℕ → ℕ
always_right i = 1

one_move-sent : move_chan always_right (pos 1) ≡ some (move_value 1 ∷ [])
unfolding move_chan
one_move-sent = refl

abbrev maze_end : Program Value
maze_end = record {
  chain =
      (via
        (via
          (via (via (via spent (forwarder) tt closed) (position_flow) 6 closed) (forwarder) tt
            closed)
          (stateless format_body) tt closed)
        (forwarder) tt closed);
  sunk = string_value (line_at 6) ∷ [];
  done = true;
}

maze_run : Runs 23 (Maze.main (move_value 1 ∷ [])) maze_end
unfolding format_body position_fold move
maze_run =
    here
    ⨾ work (inner (inner (inner (inner (receive source_gives refl)))))
    ⨾ work (inner (inner (inner (receive send refl))))
    ⨾ work (inner (inner (receive send refl)))
    ⨾ work (inner (receive send refl))
    ⨾ work (receive send refl)
    ⨾ sink_receive send
    ⨾ work again
    ⨾ work (inner again)
    ⨾ work (inner (inner again))
    ⨾ work (inner (inner (inner again)))
    ⨾ work (inner (inner (inner (inner again))))
    ⨾ work (inner (inner (inner (inner (inner close_source)))))
    ⨾ work (inner (inner (inner (inner (finish refl)))))
    ⨾ work (inner (inner (inner (inner close_out))))
    ⨾ work (inner (inner (inner (finish refl))))
    ⨾ work (inner (inner (inner close_out)))
    ⨾ work (inner (inner (finish refl)))
    ⨾ work (inner (inner close_out))
    ⨾ work (inner (finish refl))
    ⨾ work (inner close_out)
    ⨾ work (finish refl)
    ⨾ work close_out
    ⨾ sink_done refl

maze_complete_example :
    (¬ Crash maze_end.chain)
    × All (λ position. position < 10) (walk (generate_random_moves always_right (pos 1)))
    × (((maze_end.done ≡ true)
          × (maze_end.sunk
              ≡ map string_value (map line_at (walk (generate_random_moves always_right (pos 1))))))
        ⊎ ((q : Program Value) × Run maze_end q))
maze_complete_example = maze_complete always_right (pos 1) one_move-sent maze_run
