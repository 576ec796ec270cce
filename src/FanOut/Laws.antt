-- ===== src/FanOut/Laws.antt =====
-- What `FanOut` sends to its flows (flow/util.go).
use go_streams.Prelude.{
  ℕ, zero, suc, Bool, true, false, List, [], ◌∷◌, ◌++◌, ◌≡◌, refl, append-nil, append_assoc,
  replicate,
}
use go_streams.Channel.{Chan, ok, send, close}
use go_streams.FanOut.{make_flows, each, fan_out}

module _ {Any : Type 0} where
  abbrev flow : Bool → List Any → Chan Any
  flow closed h = record { history = h; closed = closed }

  each-send :
      (n : ℕ) (e : Any) (h : List Any)
      → each (send e) (replicate n (flow false h)) ≡ ok (replicate n (flow false (h ++ (e ∷ []))))
  unfolding each
  each-send zero e h = refl
  each-send (suc n) e h = rw (each-send n e h)

  each-close :
      (n : ℕ) (h : List Any)
      → each close (replicate n (flow false h)) ≡ ok (replicate n (flow true h))
  unfolding each
  each-close zero h = refl
  each-close (suc n) h = rw (each-close n h)

  fan_out_from :
      (n : ℕ) (es h : List Any)
      → fan_out es (replicate n (flow false h)) ≡ ok (replicate n (flow true (h ++ es)))
  unfolding fan_out
  fan_out_from n [] h = rw append-nil (each-close n h)
  fan_out_from n (e ∷ es) h =
      rw (each-send n e h) (rw (fan_out_from n es (h ++ (e ∷ [])), append_assoc))

  make_flows_lem : (n : ℕ) → make_flows n ≡ replicate n (flow false [])
  unfolding make_flows
  make_flows_lem zero = refl
  make_flows_lem (suc n) = rw (make_flows_lem n)

  -- `FanOut` sends all elements, in order, to each of its `n` flows, and then closes each.
  fan_out_lem :
      (n : ℕ) (es : List Any)
      → fan_out es (make_flows n) ≡ ok (replicate n (record { history = es; closed = true }))
  fan_out_lem n es = rw (make_flows_lem n) (fan_out_from n es [])
