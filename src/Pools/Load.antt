-- ===== src/Pools/Load.antt =====
-- What a chain of pools (flow/map.go, flow/filter.go, flow/flat_map.go) has still to send, weighed: no
-- step changes the weight, whatever the elements weigh.
use go_streams.Prelude.{
  ℕ, ◌+◌, Option, none, some, List, [], ◌∷◌, ◌≡◌, refl, arith, weigh, weigh_swap,
}
use go_streams.Pool.{Worker, receiving, sending, exited}
use go_streams.Pools.{
  Chain, source, spent, pool, Gives, source_gives, worker_gives, Step, close_source, inner, receive,
  again, exit, close_out,
}

module _ {Any : Type 0} where
  abbrev pub pending : (Any → ℕ) → Worker Any → ℕ
  pending w receiving = 0
  pending w (sending outs) = weigh w outs
  pending w exited = 0

  -- What a body makes of an element, weighed.
  abbrev pub image : (Any → Option (List Any)) → (Any → ℕ) → Any → ℕ
  image body w e = elim (body e) [ none ↦ 0 | some outs ↦ weigh w outs ]

  image-some :
      (body : Any → Option (List Any)) (w : Any → ℕ) {e : Any} {outs : List Any}
      → body e ≡ some outs
      → image body w e ≡ weigh w outs
  image-some body w h = ground arith

  abbrev pub load : (Any → ℕ) → Chain Any → ℕ
  load w (source es) = weigh w es
  load w spent = 0
  load w (pool up body workers closed) = weigh (pending w) workers + load (image body w) up

  pub Gives-load :
      {c c' : Chain Any} {e : Any} (w : Any → ℕ) → Gives c e c' → load w c ≡ w e + load w c'
  Gives-load w source_gives = refl
  Gives-load w (worker_gives {workers} ws ws' e es h) =
      omega (arith, weigh_swap (pending w) workers ws ws' (sending (e ∷ es)) (sending es) h)

  pub Step-load : {c c' : Chain Any} (w : Any → ℕ) → Step c c' → load w c ≡ load w c'
  Step-load w close_source = refl
  Step-load w (inner {body} h) = omega (arith, Step-load (image body w) h)
  Step-load w (receive {body} {workers} {e} ws ws' outs g h made) = omega (
    arith,
    weigh_swap (pending w) workers ws ws' receiving (sending outs) h,
    Gives-load (image body w) g,
    image-some body w made,
  )
  Step-load w (again {workers} ws ws' h) =
      omega (arith, weigh_swap (pending w) workers ws ws' (sending []) receiving h)
  Step-load w (exit {workers} ws ws' h closed) =
      omega (arith, weigh_swap (pending w) workers ws ws' receiving exited h)
  Step-load w (close_out h) = refl
