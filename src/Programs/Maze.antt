-- ===== src/Programs/Maze.antt =====
-- examples/maze/main.go: a Fold that walks through a maze and a Map that prints each position.
pub mod Walk
use go_streams.Prelude.{
  ℕ, zero, suc, ◌+◌, ◌-◌, Bool, true, false, ◌&&◌, Option, none, some, List, [], ◌∷◌, ◌++◌, map, ℤ,
  pos, nonpositive, magnitude, if◌then◌else◌, ltb, leb, ◌==◌, length, get_elem?, take, drop,
  replicate,
}
use go_streams.Fold.{Fold, new_fold}
use go_streams.Pipeline.{Operator, source, Program}
use go_streams.Pipeline.Operators.{stateless, fold_operator, via_flow, to_sink}

-- The values of `Move`, which is an `int`.
abbrev left : ℕ
left = 0

abbrev right : ℕ
right = 1

abbrev pub maze_length : ℕ
maze_length = 10

-- The characters of the maze, as their codes.
abbrev pub dash : ℕ
dash = 45

abbrev pub cross : ℕ
cross = 88

abbrev pub maze : List ℕ
maze = replicate maze_length dash

-- The dynamic types of what goes through the channels.
pub data Value : Type 0 where
  move_value int_value : ℕ → Value
  string_value : List ℕ → Value

abbrev pub as_move : Value → Option ℕ
as_move (move_value m) = some m
as_move _ = none

abbrev pub as_int : Value → Option ℕ
as_int (int_value n) = some n
as_int _ = none

-- `move`
unfoldable pub move : ℕ → ℕ → ℕ
move m position =
    if (m == left) && ltb 0 position
    then position - 1
    else if (m == right) && ltb position (length maze - 1)
    then position + 1
    else position

-- `format`; `none` is the panic of a slice out of range.
unfoldable pub format : ℕ → Option (List ℕ)
format position =
    if ltb position (length maze)
    then some (take position maze ++ ((cross ∷ []) ++ drop (position + 1) maze))
    else none

-- The loop of `generateRandomMoves` from index `i` on; `intn i` is the value of `rand.Intn(2)` then.
random_loop : (ℕ → ℕ) → ℕ → ℕ → List ℕ
random_loop intn i zero = []
random_loop intn i (suc n) = intn i ∷ random_loop intn (suc i) n

-- `generateRandomMoves`
unfoldable pub generate_random_moves : (ℕ → ℕ) → ℤ → List ℕ
unfolding random_loop
generate_random_moves intn n = if nonpositive n then [] else random_loop intn 0 (magnitude n)

-- The loop of `moveChan` from index `i` on, with the sends that are left; `none` is an index out of
-- range.
send_loop : List ℕ → ℕ → ℕ → Option (List Value)
send_loop moves i zero = some []
send_loop moves i (suc n) = elim (get_elem? moves i) [
  | none ↦ none
  | some m ↦ elim (send_loop moves (suc i) n) [ none ↦ none | some vs ↦ some (move_value m ∷ vs) ]
]

-- `moveChan`: what its goroutine sends before it closes the channel
unfoldable pub move_chan : (ℕ → ℕ) → ℤ → Option (List Value)
unfolding send_loop generate_random_moves random_loop
move_chan intn n = send_loop (generate_random_moves intn n) 0 (magnitude n)

unfoldable pub position_fold : Fold ℕ ℕ
unfolding new_fold move
position_fold = (new_fold 5 move).0

abbrev pub position_flow : Operator Value
position_flow = fold_operator as_move int_value position_fold

-- The worker of `flow.NewMap(format, 1)`
unfoldable pub format_body : Value → Option (List Value)
unfolding format
format_body e = elim (as_int e) [
  | none ↦ none
  | some position ↦ elim (format position) [
    | none ↦ none
    | some line ↦ some (string_value line ∷ [])
  ]
]

-- `main`, over what the channel of `moveChan` delivers
abbrev pub main : List Value → Program Value
main sent =
    to_sink (
      via_flow (via_flow (source sent) position_flow position_fold.init) (stateless format_body) tt)
