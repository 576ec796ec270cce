-- ===== src/Merge.antt =====
-- `Merge` of flow/util.go: a forwarding goroutine for each outlet, and one that waits for them all and
-- closes the merged flow. A step is one channel or WaitGroup operation of one goroutine. A forwarder
-- has what its outlet will deliver until it is closed.
mod Inv
pub mod Laws
use go_streams.Prelude.{ℕ, ◌+◌, ◌-◌, Bool, true, false, List, [], ◌∷◌, ◌++◌, ◌≡◌, map, length}
use go_streams.Channel.{Chan, make_chan}

pub data Forwarder {ℓ} (Any : Type ℓ) : Type ℓ where
  ranging : List Any → Forwarder Any  -- at `range outlet.Out()`
  holding : Any → List Any → Forwarder Any  -- before the send on `merged.In()`
  exited : Forwarder Any  -- after `wg.Done()`

pub record Merge (Any : Type 0) : Type 0 where
  pub forwarders : List (Forwarder Any)
  pub wg : ℕ
  pub merged : Chan Any

-- `wg.Add(len(outlets))` and the `go` statements.
abbrev pub init : {Any : Type 0} → List (List Any) → Merge Any
init outlets = record { forwarders = map ranging outlets; wg = length outlets; merged = make_chan }

module _ {Any : Type 0} where
  pub data Step (s : Merge Any) : Merge Any → Type 0 where
    receive :
        (fs fs' : List (Forwarder Any)) (e : Any) (es : List Any)
        → s.forwarders ≡ fs ++ (ranging (e ∷ es) ∷ fs')
        → Step s (record s { forwarders = fs ++ (holding e es ∷ fs') })
    deliver :
        (fs fs' : List (Forwarder Any)) (e : Any) (es : List Any)
        → s.forwarders ≡ fs ++ (holding e es ∷ fs')
        → s.merged.closed ≡ false
        → Step s (record s {
          forwarders = fs ++ (ranging es ∷ fs');
          merged = record { history = s.merged.history ++ (e ∷ []); closed = false };
        })
    done :
        (fs fs' : List (Forwarder Any))
        → s.forwarders ≡ fs ++ (ranging [] ∷ fs')
        → Step s (record s { forwarders = fs ++ (exited ∷ fs'); wg = s.wg - 1 })
    close_merged :
        s.wg ≡ 0
        → s.merged.closed ≡ false
        → Step s (record s { merged = record { history = s.merged.history; closed = true } })

  -- A state in which a forwarder sends on the closed flow. (The closing goroutine closes it once.)
  pub data Crash (s : Merge Any) : Type 0 where
    late_send :
        (fs fs' : List (Forwarder Any)) (e : Any) (es : List Any)
        → s.forwarders ≡ fs ++ (holding e es ∷ fs')
        → s.merged.closed ≡ true
        → Crash s

  pub data Reach (s : Merge Any) : Merge Any → Type 0 where
    here : Reach s s
    next : {t u : Merge Any} → Reach s t → Step t u → Reach s u
