-- ===== src/Pipeline.antt =====
-- A program that the library's users write: `source.Via(o).Via(p).To(sink)` (streams.go). Each of its
-- goroutines ranges over the channel behind it, sends on the channel before it, and closes that one:
-- the goroutine of a source, the loops of `Via`, `transmit` and `DoStream` (flow/util.go), and the
-- operators of one goroutine. The channels have no buffer, so a send and its receive are one step.
pub mod Remains
pub mod Progress
pub mod Safe
pub mod Laws
pub mod Operators
pub mod Agree
pub mod Stages
pub mod Typed
use go_streams.Prelude.{
  Bool, true, false, ℕ, zero, suc, Option, none, some, List, [], ◌∷◌, ◌++◌, ◌≡◌,
}

-- A goroutine of the form `for element := range in { … }; …; close(out)`: its variables, what it makes
-- of an element (`none` is a panic) and sends for it, and what it sends when `in` is closed.
pub record Operator (Any : Type 0) : Type 1 where
  pub State : Type 0
  pub react : State → Any → Option (State × List Any)
  pub flush : State → List Any

-- Where a goroutine stands: at `range in`, at its next send for an element or behind the loop, or past
-- `close(out)`.
pub data Mode (Any : Type 0) : Type 0 where
  ranging closed : Mode Any
  sending finishing : List Any → Mode Any

-- All goroutines from the source to one of the channels.
pub data Chain (Any : Type 0) : Type 1 where
  -- The goroutine of a source, with what it has still to send; then past `close(out)`.
  source : List Any → Chain Any
  spent : Chain Any
  via : Chain Any → (op : Operator Any) → op.State → Mode Any → Chain Any

module _ {Any : Type 0} where
  -- The last goroutine of a chain hands an element to whoever receives from its channel.
  pub data Gives : Chain Any → Any → Chain Any → Type 1 where
    source_gives : {e : Any} {es : List Any} → Gives (source (e ∷ es)) e (source es)
    send :
        {up : Chain Any} {op : Operator Any} {s : op.State} {e : Any} {es : List Any}
        → Gives (via up op s (sending (e ∷ es))) e (via up op s (sending es))
    send_last :
        {up : Chain Any} {op : Operator Any} {s : op.State} {e : Any} {es : List Any}
        → Gives (via up op s (finishing (e ∷ es))) e (via up op s (finishing es))

  -- The channel of a chain is closed.
  abbrev pub is_closed : Chain Any → Bool
  is_closed spent = true
  is_closed (via up op s closed) = true
  is_closed _ = false

  -- One step inside a chain.
  pub data Step : Chain Any → Chain Any → Type 1 where
    close_source : Step (source []) spent
    inner :
        {up up' : Chain Any} {op : Operator Any} {s : op.State} {m : Mode Any}
        → Step up up'
        → Step (via up op s m) (via up' op s m)
    receive :
        {up up' : Chain Any} {op : Operator Any} {s s' : op.State} {e : Any} {outs : List Any}
        → Gives up e up'
        → op.react s e ≡ some (s', outs)
        → Step (via up op s ranging) (via up' op s' (sending outs))
    again :
        {up : Chain Any} {op : Operator Any} {s : op.State}
        → Step (via up op s (sending [])) (via up op s ranging)
    finish :
        {up : Chain Any} {op : Operator Any} {s : op.State}
        → is_closed up ≡ true
        → Step (via up op s ranging) (via up op s (finishing (op.flush s)))
    close_out :
        {up : Chain Any} {op : Operator Any} {s : op.State}
        → Step (via up op s (finishing [])) (via up op s closed)

  -- A state of a chain in which a goroutine panics.
  pub data Crash : Chain Any → Type 1 where
    inner_crash :
        {up : Chain Any} {op : Operator Any} {s : op.State} {m : Mode Any}
        → Crash up
        → Crash (via up op s m)
    bad_element :
        {up up' : Chain Any} {op : Operator Any} {s : op.State} {e : Any}
        → Gives up e up'
        → op.react s e ≡ none
        → Crash (via up op s ranging)

-- A whole program: its sink has received `sunk`, and `done` once its input was closed.
pub record Program (Any : Type 0) : Type 1 where
  pub chain : Chain Any
  pub sunk : List Any
  pub done : Bool

abbrev pub start : {Any : Type 0} → Chain Any → Program Any
start chain = record { chain = chain; sunk = []; done = false }

infixl 5 ◌⨾◌
module _ {Any : Type 0} where
  pub data Run : Program Any → Program Any → Type 1 where
    work :
        {c c' : Chain Any} {l : List Any} {b : Bool}
        → Step c c'
        → Run (record { chain = c; sunk = l; done = b }) (record { chain = c'; sunk = l; done = b })
    sink_receive :
        {c c' : Chain Any} {l : List Any} {e : Any}
        → Gives c e c'
        → Run
            (record { chain = c; sunk = l; done = false })
            (record { chain = c'; sunk = l ++ (e ∷ []); done = false })
    sink_done :
        {c : Chain Any} {l : List Any}
        → is_closed c ≡ true
        → Run
            (record { chain = c; sunk = l; done = false })
            (record { chain = c; sunk = l; done = true })

  -- So many steps of the program, in any order that the channels allow.
  pub data Runs : ℕ → Program Any → Program Any → Type 1 where
    here : {p : Program Any} → Runs 0 p p
    ◌⨾◌ : {n : ℕ} {p q r : Program Any} → Runs n p q → Run q r → Runs (suc n) p r
