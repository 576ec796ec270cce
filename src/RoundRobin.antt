-- ===== src/RoundRobin.antt =====
-- `RoundRobin` of flow/util.go: some goroutines that forward what one outlet delivers, each to a flow
-- of its own. A step is one channel operation of one goroutine.
mod Inv
pub mod Laws
use go_streams.Prelude.{ℕ, Bool, true, false, List, [], ◌∷◌, ◌++◌, ◌≡◌, replicate}
use go_streams.Channel.{Chan, make_chan}

-- Where a forwarder stands: at `range outlet.Out()`, before its send, or past its deferred close.
pub data Stage {ℓ} (Any : Type ℓ) : Type ℓ where
  ranging exited : Stage Any
  holding : Any → Stage Any

-- A goroutine with the inlet of its flow.
pub record Forwarder (Any : Type 0) : Type 0 where
  pub stage : Stage Any
  pub flow : Chan Any

-- The forwarders, and what the outlet has yet to deliver until it is closed.
pub record RoundRobin (Any : Type 0) : Type 0 where
  pub forwarders : List (Forwarder Any)
  pub input : List Any

-- The loop that makes the flows and starts the goroutines. (A goroutine that has not been started is
-- one that has made no step.)
abbrev pub init : {Any : Type 0} → ℕ → List Any → RoundRobin Any
init magnitude given = record {
  forwarders = replicate magnitude (record { stage = ranging; flow = make_chan });
  input = given;
}

module _ {Any : Type 0} where
  pub data Step (s : RoundRobin Any) : RoundRobin Any → Type 0 where
    receive :
        (fs fs' : List (Forwarder Any)) (f : Forwarder Any) (e : Any) (es : List Any)
        → s.forwarders ≡ fs ++ (f ∷ fs')
        → f.stage ≡ ranging
        → s.input ≡ e ∷ es
        → Step s (record { forwarders = fs ++ (record f { stage = holding e } ∷ fs'); input = es })
    deliver :
        (fs fs' : List (Forwarder Any)) (f : Forwarder Any) (e : Any)
        → s.forwarders ≡ fs ++ (f ∷ fs')
        → f.stage ≡ holding e
        → f.flow.closed ≡ false
        → Step s (record s {
          forwarders =
              fs
              ++ (record {
                stage = ranging;
                flow = record { history = f.flow.history ++ (e ∷ []); closed = false };
              }
                  ∷ fs');
        })
    leave :
        (fs fs' : List (Forwarder Any)) (f : Forwarder Any)
        → s.forwarders ≡ fs ++ (f ∷ fs')
        → f.stage ≡ ranging
        → s.input ≡ []
        → f.flow.closed ≡ false
        → Step s (record s {
          forwarders =
              fs
              ++ (record {
                stage = exited;
                flow = record { history = f.flow.history; closed = true };
              }
                  ∷ fs');
        })

  -- A state in which a forwarder panics.
  pub data Crash (s : RoundRobin Any) : Type 0 where
    late_send :
        (fs fs' : List (Forwarder Any)) (f : Forwarder Any) (e : Any)
        → s.forwarders ≡ fs ++ (f ∷ fs')
        → f.stage ≡ holding e
        → f.flow.closed ≡ true
        → Crash s
    late_close :
        (fs fs' : List (Forwarder Any)) (f : Forwarder Any)
        → s.forwarders ≡ fs ++ (f ∷ fs')
        → f.stage ≡ ranging
        → s.input ≡ []
        → f.flow.closed ≡ true
        → Crash s

  pub data Reach (s : RoundRobin Any) : RoundRobin Any → Type 0 where
    here : Reach s s
    next : {t u : RoundRobin Any} → Reach s t → Step t u → Reach s u
