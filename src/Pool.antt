-- ===== src/Pool.antt =====
-- The worker pool that `stream` runs in flow/map.go, flow/filter.go and flow/flat_map.go: the
-- goroutine of `stream` starts `parallelism` workers, waits for them and closes the output. The
-- three differ in what a worker sends for an element, which is the parameter `body`.
--
-- A state is what the goroutines have left to do; a step is one channel or WaitGroup operation of
-- one of them, so a run is any interleaving. `input` is what the upstream has yet to send before it
-- closes the channel: since any step may wait, late elements are covered.
pub mod Inv
pub mod Laws
pub mod Ends
pub mod Order
use go_streams.Prelude.{
  ℕ, zero, suc, ◌+◌, ◌-◌, ◌≤◌, ◌<◌, true, false, Option, none, some, List, [], ◌∷◌, ◌++◌, ◌≡◌,
}
use go_streams.Channel.{Chan, make_chan}

pub data Worker {ℓ} (B : Type ℓ) : Type ℓ where
  receiving : Worker B  -- at `range in`
  sending : List B → Worker B  -- what it still sends for its element
  exited : Worker B  -- after `wg.Done()`

-- The goroutine of `stream`: in the `for` loop, at `wg.Wait()`, or after `close(out)`.
pub data Main : Type 0 where
  starting : (i : ℕ) → Main
  waiting finished : Main

pub record Pool (Any B : Type 0) : Type 0 where
  pub input : List Any
  pub workers : List (Worker B)
  pub wg : ℕ
  pub out : Chan B
  pub main : Main

abbrev pub init : {Any B : Type 0} → List Any → Pool Any B
init given = record { input = given; workers = []; wg = 0; out = make_chan; main = starting 0 }

-- `body e` is what a worker sends for `e`; `none` is a failed type assertion.
module _ {Any B : Type 0} (parallelism : ℕ) (body : Any → Option (List B)) where
  pub data Step (s : Pool Any B) : Pool Any B → Type 0 where
    start :
        {i : ℕ}
        → s.main ≡ starting i
        → i < parallelism
        → Step s (record s {
          main = starting (suc i);
          wg = s.wg + 1;
          workers = s.workers ++ (receiving ∷ []);
        })
    all_started :
        {i : ℕ} → s.main ≡ starting i → parallelism ≤ i → Step s (record s { main = waiting })
    receive :
        (ws ws' : List (Worker B)) (e : Any) (es : List Any) (outs : List B)
        → s.workers ≡ ws ++ (receiving ∷ ws')
        → s.input ≡ e ∷ es
        → body e ≡ some outs
        → Step s (record s { input = es; workers = ws ++ (sending outs ∷ ws') })
    deliver :
        (ws ws' : List (Worker B)) (o : B) (os : List B)
        → s.workers ≡ ws ++ (sending (o ∷ os) ∷ ws')
        → s.out.closed ≡ false
        → Step s (record s {
          out = record { history = s.out.history ++ (o ∷ []); closed = false };
          workers = ws ++ (sending os ∷ ws');
        })
    again :
        (ws ws' : List (Worker B))
        → s.workers ≡ ws ++ (sending [] ∷ ws')
        → Step s (record s { workers = ws ++ (receiving ∷ ws') })
    exit :
        (ws ws' : List (Worker B))
        → s.workers ≡ ws ++ (receiving ∷ ws')
        → s.input ≡ []
        → Step s (record s { workers = ws ++ (exited ∷ ws'); wg = s.wg - 1 })
    finish :
        s.main ≡ waiting
        → s.wg ≡ 0
        → s.out.closed ≡ false
        → Step s
            (record s { out = record { history = s.out.history; closed = true }; main = finished })

  -- A state in which some goroutine panics.
  pub data Crash (s : Pool Any B) : Type 0 where
    bad_element :
        (ws ws' : List (Worker B)) (e : Any) (es : List Any)
        → s.workers ≡ ws ++ (receiving ∷ ws')
        → s.input ≡ e ∷ es
        → body e ≡ none
        → Crash s
    late_send :
        (ws ws' : List (Worker B)) (o : B) (os : List B)
        → s.workers ≡ ws ++ (sending (o ∷ os) ∷ ws')
        → s.out.closed ≡ true
        → Crash s
    late_close : s.main ≡ waiting → s.wg ≡ 0 → s.out.closed ≡ true → Crash s

  -- What can be reached from `stream`'s start on the elements `given`, in so many steps.
  pub data Reach (given : List Any) : ℕ → Pool Any B → Type 0 where
    here : Reach given 0 (init given)
    next : {n : ℕ} {s t : Pool Any B} → Reach given n s → Step s t → Reach given (suc n) t
