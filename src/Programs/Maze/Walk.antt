-- ===== src/Programs/Maze/Walk.antt =====
-- The walk through the maze (examples/maze/main.go).
use go_streams.Prelude.{
  ℕ, zero, suc, ◌+◌, ◌-◌, ◌≤◌, ◌<◌, true, some, List, [], ◌∷◌, ◌++◌, ◌≡◌, append_assoc, ◌⊎◌, inl,
  inr, refl, ap, ◌∙◌, arith, map, ℤ, pos, negsuc, length-append, length, get_elem?, take, drop,
  replicate, All,
}
use Prim.Native.Nat.{min}
use mathlib.Core.Path.{subst}
use go_streams.Element.{typed_prefix, all_typed}
use go_streams.Fold.Laws.{rolling}
use go_streams.Pipeline.{Chain, Crash, Runs, Run, Program, source}
use go_streams.Pipeline.Remains.{outputs, remains}
use go_streams.Pipeline.Safe.{accepts, IsSafe}
use go_streams.Pipeline.Operators.{
  stateless, via_flow, remains-via_flow, IsSafe-via_flow, remains-to_sink, IsSafe-to_sink,
}
use go_streams.Pipeline.Agree.{outputs-fold_operator, accepts-fold_operator}
use go_streams.Pipeline.Laws.{pipeline_complete}
use go_streams.Programs.Maze.{
  dash, cross, Value, move_value, int_value, string_value, as_move, move, format, random_loop,
  generate_random_moves, send_loop, move_chan, position_flow, position_fold, format_body, main,
}

-- The line that shows a position.
abbrev pub line_at : ℕ → List ℕ
line_at position = replicate position dash ++ (cross ∷ replicate (9 - position) dash)

take-replicate : (n k : ℕ) (c : ℕ) → k ≤ n → take k (replicate n c) ≡ replicate k c
take-replicate n zero c h = refl
take-replicate zero (suc k) c h = absurd (omega arith)
take-replicate (suc n) (suc k) c h = ap (λ l. c ∷ l) (take-replicate n k c (omega arith))

drop-replicate : (n k m : ℕ) (c : ℕ) → n ≡ k + m → drop k (replicate n c) ≡ replicate m c
drop-replicate n zero m c h = ap (λ i. replicate i c) (omega arith)
drop-replicate zero (suc k) m c h = absurd (omega arith)
drop-replicate (suc n) (suc k) m c h = drop-replicate n k m c (omega arith)

format_lem : (position : ℕ) → position < 10 → format position ≡ some (line_at position)
unfolding format
format_lem position h = ground (
  arith,
  take-replicate 10 position dash (omega arith),
  drop-replicate 10 (position + 1) (9 - position) dash (omega arith),
)

move-bounded : (m position : ℕ) → position < 10 → move m position < 10
unfolding move
move-bounded m position h = ground arith

-- A step to the left (0) or to the right (1) that stops at the walls; no other number moves.
abbrev pub stepped : ℕ → ℕ → ℕ
stepped zero position = position - 1
stepped (suc zero) position = min 9 (position + 1)
stepped (suc (suc m)) position = position

move_lem : (m position : ℕ) → position < 10 → move m position ≡ stepped m position
unfolding move
move_lem zero position h = ground arith
move_lem (suc zero) position h = ground arith
move_lem (suc (suc m)) position h = ground arith

-- The positions on the way, from the middle of the maze.
abbrev pub walk : List ℕ → List ℕ
walk moves = rolling stepped 5 moves

rolling-stepped :
    (moves : List ℕ) (position : ℕ)
    → position < 10
    → rolling move position moves ≡ rolling stepped position moves
rolling-stepped [] position h = refl
rolling-stepped (m ∷ moves) position h =
    ap (λ q. q ∷ rolling move q moves) (move_lem m position h)
    ∙ ap (λ l. stepped m position ∷ l)
        (rolling-stepped moves (stepped m position)
          (omega (arith, move_lem m position h, move-bounded m position h)))

rolling-bounded :
    (moves : List ℕ) (position : ℕ)
    → position < 10
    → All (λ q. q < 10) (rolling move position moves)
rolling-bounded [] position h = tt
rolling-bounded (m ∷ moves) position h =
    (move-bounded m position h, rolling-bounded moves (move m position) (move-bounded m position h))

walk-bounded : (moves : List ℕ) → All (λ q. q < 10) (walk moves)
walk-bounded moves =
    subst (All (λ q. q < 10)) (rolling-stepped moves 5 (omega arith))
      (rolling-bounded moves 5 (omega arith))

outputs-format :
    (ps : List ℕ)
    → All (λ q. q < 10) ps
    → (outputs (stateless format_body) tt (map int_value ps) ≡ map string_value (map line_at ps))
      × (accepts (stateless format_body) tt (map int_value ps) ≡ true)
unfolding format_body
outputs-format [] h = (refl, refl)
outputs-format (q ∷ qs) h =
    let (sent, fine) = outputs-format qs h.1 in
    (ground (arith, format_lem q h.0, sent), ground (arith, format_lem q h.0, fine))

typed_moves :
    (moves : List ℕ)
    → (typed_prefix as_move (map move_value moves) ≡ moves)
      × (all_typed as_move (map move_value moves) ≡ true)
typed_moves [] = (refl, refl)
typed_moves (m ∷ moves) = (ap (λ l. m ∷ l) (typed_moves moves).0, (typed_moves moves).1)

get_elem?-behind :
    {A : Type 0} (xs : List A) (y : A) (ys : List A)
    → get_elem? (xs ++ (y ∷ ys)) (length xs) ≡ some y
get_elem?-behind [] y ys = refl
get_elem?-behind (x ∷ xs) y ys = get_elem?-behind xs y ys

send_loop-from :
    (behind moves : List ℕ) (i : ℕ)
    → i ≡ length behind
    → send_loop (behind ++ moves) i (length moves) ≡ some (map move_value moves)
unfolding send_loop
send_loop-from behind [] i h = refl
send_loop-from behind (m ∷ moves) i h = ground (
  arith,
  h,
  get_elem?-behind behind m moves,
  append_assoc behind (m ∷ []) moves,
  length-append behind (m ∷ []),
  send_loop-from (behind ++ m ∷ []) moves (suc i) (omega (arith, length-append behind (m ∷ []))),
)

length-random_loop : (intn : ℕ → ℕ) (i n : ℕ) → length (random_loop intn i n) ≡ n
unfolding random_loop
length-random_loop intn i zero = refl
length-random_loop intn i (suc n) = ap suc (length-random_loop intn (suc i) n)

-- `moveChan` sends the moves that were generated, with no index out of range.
move_chan_lem :
    (intn : ℕ → ℕ) (n : ℤ) → move_chan intn n ≡ some (map move_value (generate_random_moves intn n))
unfolding move_chan generate_random_moves
move_chan_lem intn (pos zero) = refl
move_chan_lem intn (pos (suc n)) =
    ground
      (arith, send_loop-from [] (random_loop intn 0 (suc n)) 0 refl, length-random_loop intn 1 n)
move_chan_lem intn (negsuc n) = refl

-- The goroutines up to the one that keeps the position.
abbrev positions : List ℕ → Chain Value
positions moves = via_flow (source (map move_value moves)) position_flow position_fold.init

remains-positions : (moves : List ℕ) → remains (positions moves) ≡ map int_value (walk moves)
unfolding position_fold
remains-positions moves =
    remains-via_flow (source (map move_value moves)) position_flow position_fold.init
    ∙ outputs-fold_operator as_move int_value position_fold 5 (map move_value moves)
    ∙ ap (λ ms. map int_value (rolling move 5 ms)) (typed_moves moves).0
    ∙ ap (map int_value) (rolling-stepped moves 5 (omega arith))

IsSafe-positions : (moves : List ℕ) → IsSafe (positions moves)
IsSafe-positions moves =
    IsSafe-via_flow (source (map move_value moves)) position_flow position_fold.init tt (
      accepts-fold_operator as_move int_value position_fold position_fold.init
        (map move_value moves)
      ∙ (typed_moves moves).1)

remains-main :
    (moves : List ℕ)
    → remains (main (map move_value moves)).chain ≡ map string_value (map line_at (walk moves))
remains-main moves =
    remains-to_sink (via_flow (positions moves) (stateless format_body) tt)
    ∙ remains-via_flow (positions moves) (stateless format_body) tt
    ∙ ap (outputs (stateless format_body) tt) (remains-positions moves)
    ∙ (outputs-format (walk moves) (walk-bounded moves)).0

IsSafe-main : (moves : List ℕ) → IsSafe (main (map move_value moves)).chain
IsSafe-main moves = IsSafe-to_sink (via_flow (positions moves) (stateless format_body) tt) (
    IsSafe-via_flow (positions moves) (stateless format_body) tt (IsSafe-positions moves) (
      ap (accepts (stateless format_body) tt) (remains-positions moves)
      ∙ (outputs-format (walk moves) (walk-bounded moves)).1))

-- The maze program prints, for any number of random moves and under every interleaving of its
-- goroutines: no goroutine panics, in particular no position on the walk is outside the maze; and
-- either the sink is done and has been given one line for each move, in order, which shows the position
-- after that move as a cross in a row of ten characters, or the program can go on.
pub maze_complete :
    (intn : ℕ → ℕ) (n : ℤ) {sent : List Value} {k : ℕ} {p : Program Value}
    → move_chan intn n ≡ some sent
    → Runs k (main sent) p
    → (¬ Crash p.chain)
      × All (λ position. position < 10) (walk (generate_random_moves intn n))
      × (((p.done ≡ true)
            × (p.sunk ≡ map string_value (map line_at (walk (generate_random_moves intn n)))))
          ⊎ ((q : Program Value) × Run p q))
maze_complete intn n {sent} {k} {p} made run =
    let (_, no_crash, all, result) =
      pipeline_complete (main (map move_value moves)).chain (IsSafe-main moves)
        (subst (λ vs. Runs k (main vs) p) sent-moves run) in
    (
      no_crash,
      walk-bounded moves,
      elim result [ inl (d, printed) ↦ inl (d, printed ∙ remains-main moves) | inr q ↦ inr q ],
    )
  where
    moves : List ℕ
    moves = generate_random_moves intn n

    sent-moves : sent ≡ map move_value moves
    sent-moves = cc (made, move_chan_lem intn n)
