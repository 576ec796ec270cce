-- ===== src/Split.antt =====
-- `DoStream` and `Split` of flow/util.go.
pub mod Laws
use go_streams.Prelude.{Bool, Option, List, [], ◌∷◌, if◌then◌else◌}
use go_streams.Channel.{Chan, Outcome, ok, panic, ◌>>=◌, make_chan, send, close, expect, forward}

-- The goroutine of `DoStream`, over what the outlet delivers
unfoldable pub do_stream : {Any : Type 0} → List Any → Chan Any → Outcome (Chan Any)
unfolding forward
do_stream es inlet = forward es inlet

-- The inlets of `condTrue` and `condFalse`.
pub record Branches (Any : Type 0) : Type 0 where
  pub cond_true : Chan Any
  pub cond_false : Chan Any

abbrev pub make_branches : {Any : Type 0} → Branches Any
make_branches = record { cond_true = make_chan; cond_false = make_chan }

module _ {Any : Type 0} where
  -- An operation on one of the inlets.
  on_true : (Chan Any → Outcome (Chan Any)) → Branches Any → Outcome (Branches Any)
  on_true op b = elim (op b.cond_true) [
    | ok c ↦ ok (record b { cond_true = c })
    | panic e c ↦ panic e (record b { cond_true = c })
  ]

  on_false : (Chan Any → Outcome (Chan Any)) → Branches Any → Outcome (Branches Any)
  on_false op b = elim (op b.cond_false) [
    | ok c ↦ ok (record b { cond_false = c })
    | panic e c ↦ panic e (record b { cond_false = c })
  ]

  route : Bool → Any → Branches Any → Outcome (Branches Any)
  unfolding on_true on_false
  route matches e b = if matches then on_true (send e) b else on_false (send e) b

  -- The goroutine of `Split`, over what the outlet delivers
  unfoldable pub split :
      {T : Type 0}
      → (Any → Option T)
      → (T → Bool)
      → List Any
      → Branches Any
      → Outcome (Branches Any)
  unfolding route on_true on_false
  split assert predicate [] b = on_true close b >>= λ b'. on_false close b'
  split assert predicate (e ∷ es) b =
      expect (assert e) b λ t. route (predicate t) e b >>= λ b'. split assert predicate es b'
