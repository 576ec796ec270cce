-- ===== src/Pools.antt =====
-- A program whose operators are pools of workers, as `Via` and `To` (streams.go) connect the Maps, Filters
-- and FlatMaps of any parallelism (flow/map.go, flow/filter.go, flow/flat_map.go). A loop that forwards
-- elements is a pool of one worker. The channels have no buffer, so a send and its receive are one step.
-- The WaitGroup of a pool is zero when all its workers have exited (Pool/Inv), and a worker that has
-- not been started yet is one that has made no step.
pub mod Load
pub mod Inv
pub mod Progress
pub mod Fresh
pub mod Laws
use go_streams.Prelude.{
  ℕ, zero, suc, Bool, true, false, Option, none, some, List, [], ◌∷◌, ◌++◌, ◌≡◌, All, replicate,
}
use go_streams.Pool.{Worker, receiving, sending, exited}

-- All goroutines from the source to one of the channels; the last part of a pool is whether its output is
-- closed.
pub data Chain (Any : Type 0) : Type 0 where
  source : List Any → Chain Any
  spent : Chain Any
  pool : Chain Any → (Any → Option (List Any)) → List (Worker Any) → Bool → Chain Any

module _ {Any : Type 0} where
  -- A worker of the last pool hands an element to whoever receives from its output.
  pub data Gives : Chain Any → Any → Chain Any → Type 0 where
    source_gives : {e : Any} {es : List Any} → Gives (source (e ∷ es)) e (source es)
    worker_gives :
        {up : Chain Any} {body : Any → Option (List Any)} {workers : List (Worker Any)}
        (ws ws' : List (Worker Any)) (e : Any) (es : List Any)
        → workers ≡ ws ++ (sending (e ∷ es) ∷ ws')
        → Gives (pool up body workers false) e (pool up body (ws ++ (sending es ∷ ws')) false)

  abbrev pub is_closed : Chain Any → Bool
  is_closed (source es) = false
  is_closed spent = true
  is_closed (pool up body workers closed) = closed

  abbrev pub HasExited : Worker Any → Type 0
  HasExited exited = Unit
  HasExited _ = ⊥

  -- One step inside a chain.
  pub data Step : Chain Any → Chain Any → Type 0 where
    close_source : Step (source []) spent
    inner :
        {up up' : Chain Any} {body : Any → Option (List Any)} {workers : List (Worker Any)}
        {closed : Bool}
        → Step up up'
        → Step (pool up body workers closed) (pool up' body workers closed)
    receive :
        {up up' : Chain Any} {body : Any → Option (List Any)} {workers : List (Worker Any)}
        {closed : Bool} {e : Any} (ws ws' : List (Worker Any)) (outs : List Any)
        → Gives up e up'
        → workers ≡ ws ++ (receiving ∷ ws')
        → body e ≡ some outs
        → Step (pool up body workers closed) (pool up' body (ws ++ (sending outs ∷ ws')) closed)
    again :
        {up : Chain Any} {body : Any → Option (List Any)} {workers : List (Worker Any)}
        {closed : Bool} (ws ws' : List (Worker Any))
        → workers ≡ ws ++ (sending [] ∷ ws')
        → Step (pool up body workers closed) (pool up body (ws ++ (receiving ∷ ws')) closed)
    exit :
        {up : Chain Any} {body : Any → Option (List Any)} {workers : List (Worker Any)}
        {closed : Bool} (ws ws' : List (Worker Any))
        → workers ≡ ws ++ (receiving ∷ ws')
        → is_closed up ≡ true
        → Step (pool up body workers closed) (pool up body (ws ++ (exited ∷ ws')) closed)
    close_out :
        {up : Chain Any} {body : Any → Option (List Any)} {workers : List (Worker Any)}
        → All HasExited workers
        → Step (pool up body workers false) (pool up body workers true)

  -- A state of a chain in which a worker fails an assertion.
  pub data Crash : Chain Any → Type 0 where
    inner_crash :
        {up : Chain Any} {body : Any → Option (List Any)} {workers : List (Worker Any)}
        {closed : Bool}
        → Crash up
        → Crash (pool up body workers closed)
    bad_element :
        {up up' : Chain Any} {body : Any → Option (List Any)} {workers : List (Worker Any)}
        {closed : Bool} {e : Any}
        → Gives up e up'
        → body e ≡ none
        → Crash (pool up body workers closed)

-- A whole program: its sink has received `sunk`, and `done` once its input was closed.
pub record Program (Any : Type 0) : Type 0 where
  pub chain : Chain Any
  pub sunk : List Any
  pub done : Bool

abbrev pub start : {Any : Type 0} → Chain Any → Program Any
start chain = record { chain = chain; sunk = []; done = false }

-- `c.Via(flow)`, where the flow runs `parallelism` workers, and the forwarding before a sink.
abbrev pub forwarded : {Any : Type 0} → Chain Any → Chain Any
forwarded c = pool c (λ e. some (e ∷ [])) (receiving ∷ []) false

abbrev pub via_pool :
    {Any : Type 0} → Chain Any → (Any → Option (List Any)) → (parallelism : ℕ) → Chain Any
via_pool c body parallelism = pool (forwarded c) body (replicate parallelism receiving) false

infixl 5 ◌⨾◌
module _ {Any : Type 0} where
  pub data Run : Program Any → Program Any → Type 0 where
    work :
        {c c' : Chain Any} {l : List Any} {b : Bool}
        → Step c c'
        → Run (record { chain = c; sunk = l; done = b }) (record { chain = c'; sunk = l; done = b })
    sink_receive :
        {c c' : Chain Any} {l : List Any} {e : Any}
        → Gives c e c'
        → Run
            (record { chain = c; sunk = l; done = false })
            (record { chain = c'; sunk = l ++ (e ∷ []); done = false })
    sink_done :
        {c : Chain Any} {l : List Any}
        → is_closed c ≡ true
        → Run
            (record { chain = c; sunk = l; done = false })
            (record { chain = c; sunk = l; done = true })

  -- So many steps of the program, in any order.
  pub data Runs : ℕ → Program Any → Program Any → Type 0 where
    here : {p : Program Any} → Runs 0 p p
    ◌⨾◌ : {n : ℕ} {p q r : Program Any} → Runs n p q → Run q r → Runs (suc n) p r
