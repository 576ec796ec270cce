-- ===== src/Reduce/Laws.antt =====
-- What a Reduce sends (flow/reduce.go).
use go_streams.Prelude.{
  ℕ, zero, suc, ◌<◌, true, false, none, some, List, [], ◌∷◌, ◌++◌, ◌≡◌, refl, map, foldl,
  append-nil, append_assoc, arith, All, length, get_elem?, take, ◌⊎◌, inl, inr, Bool-cases,
}
use go_streams.Channel.{make_chan, conclude, sent}
use go_streams.Element.{GoType}
use go_streams.Reduce.{Reduce, reduced, reduce_step, reduce_loop, stream}

get_elem?-map :
    {A B : Type 0} (f : A → B) (xs : List A) (i : ℕ) {x : A}
    → get_elem? xs i ≡ some x
    → get_elem? (map f xs) i ≡ some (f x)
get_elem?-map f [] i h = cc
get_elem?-map f (y ∷ ys) zero h = cc
get_elem?-map f (y ∷ ys) (suc i) h = get_elem?-map f ys i h

module _ {Any T : Type 0} (g : GoType Any T) (r : Reduce T) where
  open g use {box, assert, nil, is_nil, is_nil-nil, assert-nil, assert-box}
  open r use {reduce_function}

  -- The reduced values after the first element and each later one.
  abbrev pub running : T → List T → List T
  running l [] = []
  running l (t ∷ ts) = reduce_function l t ∷ running (reduce_function l t) ts

  running-get_elem? :
      (l : T) (ts : List T) (i : ℕ)
      → i < length ts
      → get_elem? (running l ts) i ≡ some (foldl reduce_function l (take (suc i) ts))
  running-get_elem? l [] i h = elim h [ ]
  running-get_elem? l (t ∷ ts) zero h = refl
  running-get_elem? l (t ∷ ts) (suc i) h =
      running-get_elem? (reduce_function l t) ts i (omega arith)

  abbrev pub IsPresent : T → Type 0
  IsPresent t = is_nil (box t) ≡ false

  reduce_step_present :
      (l t : T)
      → IsPresent l
      → IsPresent t
      → reduce_step g r (box l) (box t) ≡ some (box (reduce_function l t))
  unfolding reduce_step reduced
  reduce_step_present l t pl pt = ground (arith, assert-box l pl, assert-box t pt)

  module _ (present : (l t : T) → IsPresent (reduce_function l t)) where
    reduce_loop_lem :
        (l : T) (ts : List T) (h : List Any)
        → IsPresent l
        → All IsPresent ts
        → reduce_loop g r (box l) (map box ts) (record { history = h; closed = false })
          ≡ conclude true (h ++ map box (running l ts))
    unfolding reduce_loop
    reduce_loop_lem l [] h pl pts = rw append-nil
    reduce_loop_lem l (t ∷ ts) h pl (pt, pts) =
        let l' = reduce_function l t in
        rw (reduce_step_present l t pl pt)
          (rw (reduce_loop_lem l' ts (h ++ box l' ∷ []) (present l t) pts, append_assoc))

    -- On elements of type `T` that are not nil, with a function that never returns nil, `stream` sends
    -- the first element and then each reduced value, and closes the output.
    stream-running :
        (t : T) (ts : List T)
        → IsPresent t
        → All IsPresent ts
        → stream g r (map box (t ∷ ts)) make_chan ≡ conclude true (map box (t ∷ running t ts))
    unfolding stream
    stream-running t ts pt pts = rw is_nil-nil (reduce_loop_lem t ts (box t ∷ []) pt pts)

    -- On elements of type `T` that are not nil, with a function that never returns nil, what `stream`
    -- sends for the later element `i` is the left reduction, from the first element, of the later
    -- elements 0 to `i`.
    stream-reduction :
        (t : T) (ts : List T) (i : ℕ)
        → IsPresent t
        → All IsPresent ts
        → i < length ts
        → get_elem? (sent (stream g r (map box (t ∷ ts)) make_chan)) (suc i)
          ≡ some (box (foldl reduce_function t (take (suc i) ts)))
    stream-reduction t ts i pt pts h =
        rw (stream-running t ts pt pts) (get_elem?-map box _ i (running-get_elem? t ts i h))

  -- Once the reduced value is nil it is forgotten: if the function returns nil on the first two
  -- elements, the third one is sent as it came, whatever the first two were.
  stream_restarts :
      (a b : T) (c : Any)
      → IsPresent a
      → IsPresent b
      → is_nil (box (reduce_function a b)) ≡ true
      → stream g r (box a ∷ box b ∷ c ∷ []) make_chan
        ≡ conclude true (box a ∷ box (reduce_function a b) ∷ c ∷ [])
  unfolding stream
  stream_restarts a b c pa pb lost =
      rw (is_nil-nil, reduce_loop) (rw (reduce_step_present a b pa pb) (rw (lost, reduce_step)))

  -- The first element is sent without an assertion; if it is no `T` (and not nil), the second one
  -- makes the goroutine panic, with only the first element sent and the output open.
  stream_bad_first :
      (a b : Any) (es : List Any)
      → is_nil a ≡ false
      → assert a ≡ none
      → stream g r (a ∷ b ∷ es) make_chan ≡ conclude false (a ∷ [])
  unfolding stream reduced
  stream_bad_first a b es present bad = ground (arith, is_nil-nil)

  -- On a previous value that is nil or a `T`, an element of type `T` is reduced to a `T`.
  pub reduce_step-typed :
      ((l t : T) → IsPresent (reduce_function l t))
      → (last e : Any) → (is_nil last ≡ true) ⊎ ((l : T) × (assert last ≡ some l))
      → (t : T) × (assert e ≡ some t)
      → (next : Any) × (reduce_step g r last e ≡ some next) × ((t : T) × (assert next ≡ some t))
  unfolding reduce_step reduced
  reduce_step-typed present last e good (t, typed) = elim (Bool-cases (is_nil last)) [
    | inl first ↦ (e, rw first, (t, typed))
    | inr later ↦ elim good [
      | inl first ↦ absurd (cc (first, later))
      | inr (l, kept) ↦
          let next = reduce_function l t in
          (box next, ground (arith, later, kept, typed), (next, assert-box next (present l t)))
    ]
  ]
