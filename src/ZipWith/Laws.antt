-- ===== src/ZipWith/Laws.antt =====
-- What `ZipWith` sends (flow/util.go).
use go_streams.Prelude.{
  ℕ, zero, suc, ◌+◌, ◌≤◌, true, false, Option, some, List, [], ◌∷◌, ◌++◌, ◌≡◌, refl, ◌∙◌, ap, map,
  arith, length, append-nil, append_assoc, replicate, ◌-◌, ltb, if◌then◌else◌,
}
use go_streams.Channel.{ok}
use go_streams.ZipWith.{read_tail, closed_values, zip_element, zip_head, zip_loop, zip_with}

module _ {Any T R : Type 0} (assert : Any → Option T) (zero_value : T) (combine : List T → R)
    (box : T → Any) (assert-box : (t : T) → assert (box t) ≡ some t) where
  abbrev first : List T → T
  first [] = zero_value
  first (t ∷ ts) = t

  abbrev rest : List T → List T
  rest [] = []
  rest (t ∷ ts) = ts

  -- The first `n` rows of the columns, a column that has ended being continued by zero values.
  abbrev pub rows : ℕ → List (List T) → List R
  rows zero columns = []
  rows (suc n) columns = combine (map first columns) ∷ rows n (map rest columns)

  -- The length of the longest column.
  abbrev pub longest : List (List T) → ℕ
  longest [] = 0
  longest (c ∷ cs) = if ltb (length c) (longest cs) then longest cs else length c

  abbrev boxed : List (List T) → List (List Any)
  boxed = map (map box)

  read_tail_lem :
      (tail : List (List T))
      → read_tail assert zero_value combine (boxed tail)
        ≡ some (map first tail, boxed (map rest tail))
  unfolding read_tail
  read_tail_lem [] = refl
  read_tail_lem ([] ∷ tail) = ground (arith, read_tail_lem tail)
  read_tail_lem ((t ∷ ts) ∷ tail) = ground (arith, read_tail_lem tail, assert-box t)

  -- `n` columns that have ended.
  abbrev ended : ℕ → List (List T)
  ended n = replicate n []

  abbrev dropped : ℕ → List (List T) → List (List T)
  dropped zero columns = columns
  dropped (suc n) columns = dropped n (map rest columns)

  map-first-ended :
      (n : ℕ) (columns : List (List T))
      → map first (ended n ++ columns)
        ≡ closed_values assert zero_value combine n ++ map first columns
  unfolding closed_values
  map-first-ended zero columns = refl
  map-first-ended (suc n) columns = ap (λ l. zero_value ∷ l) (map-first-ended n columns)

  map-rest-ended :
      (n : ℕ) (columns : List (List T))
      → map rest (ended n ++ columns) ≡ ended n ++ map rest columns
  map-rest-ended zero columns = refl
  map-rest-ended (suc n) columns = ap (λ l. [] ∷ l) (map-rest-ended n columns)

  zip_element_lem :
      (n : ℕ) (t : T) (ts : List T) (tail : List (List T))
      → zip_element assert zero_value combine n (box t) (boxed tail)
        ≡ some (map first (ended n ++ ((t ∷ ts) ∷ tail)), boxed (map rest tail))
  unfolding zip_element
  zip_element_lem n t ts tail =
      ground (arith, assert-box t, read_tail_lem tail, map-first-ended n ((t ∷ ts) ∷ tail))

  zip_head_lem :
      (n : ℕ) (head : List T) (tail : List (List T)) (h : List R)
      → zip_head assert zero_value combine n
          (map box head)
          (boxed tail)
          (record { history = h; closed = false })
        ≡ ok (
          boxed (dropped (length head) tail),
          record { history = h ++ rows (length head) (ended n ++ (head ∷ tail)); closed = false },
        )
  unfolding zip_head
  zip_head_lem n [] tail h = rw append-nil
  zip_head_lem n (t ∷ ts) tail h =
      let row = combine (map first (ended n ++ ((t ∷ ts) ∷ tail))) in
      ground (
        arith,
        zip_element_lem n t ts tail,
        zip_head_lem n ts (map rest tail) (h ++ (row ∷ [])),
        append_assoc h (row ∷ []) (rows (length ts) (ended n ++ (ts ∷ map rest tail))),
        map-rest-ended n ((t ∷ ts) ∷ tail),
      )

  rows-add :
      (a b : ℕ) (columns : List (List T))
      → rows (a + b) columns ≡ rows a columns ++ rows b (dropped a columns)
  rows-add zero b columns = rw (let z : 0 + b ≡ b = omega arith in z)
  rows-add (suc a) b columns =
      rw (let z : suc a + b ≡ suc (a + b) = omega arith in z)
        (ap (λ l. combine (map first columns) ∷ l) (rows-add a b (map rest columns)))

  length-rest : (ts : List T) → length (rest ts) ≡ length ts - 1
  length-rest [] = refl
  length-rest (t ∷ ts) = omega arith

  longest-rest : (columns : List (List T)) → longest (map rest columns) ≡ longest columns - 1
  longest-rest [] = refl
  longest-rest (c ∷ cs) = ground (arith, length-rest c, longest-rest cs)

  longest-dropped :
      (n : ℕ) (columns : List (List T)) → longest (dropped n columns) ≡ longest columns - n
  longest-dropped zero columns = omega arith
  longest-dropped (suc n) columns =
      omega (arith, longest-dropped n (map rest columns), longest-rest columns)

  longest-cons :
      (head : List T) (tail : List (List T))
      → longest (head ∷ tail) ≡ length head + longest (dropped (length head) tail)
  longest-cons head tail = ground (arith, longest-dropped (length head) tail)

  dropped-ended :
      (n : ℕ) (head : List T) (tail : List (List T))
      → dropped (length head) (ended n ++ (head ∷ tail))
        ≡ ended (suc n) ++ dropped (length head) tail
  dropped-ended zero [] tail = refl
  dropped-ended (suc n) [] tail = ap (λ l. [] ∷ l) (dropped-ended n [] tail)
  dropped-ended n (t ∷ ts) tail =
      ap (dropped (length ts)) (map-rest-ended n ((t ∷ ts) ∷ tail))
      ∙ dropped-ended n ts (map rest tail)

  length-dropped : (n : ℕ) (columns : List (List T)) → length (dropped n columns) ≡ length columns
  length-dropped zero columns = refl
  length-dropped (suc n) columns = length-dropped n (map rest columns) ∙ length-map columns
    where
      length-map : (cs : List (List T)) → length (map rest cs) ≡ length cs
      length-map [] = refl
      length-map (c ∷ cs) = ap suc (length-map cs)

  zip_loop_lem :
      (left n : ℕ) (columns : List (List T)) (h : List R)
      → length columns ≡ left
      → zip_loop assert zero_value combine left n
          (boxed columns)
          (record { history = h; closed = false })
        ≡ ok (record { history = h ++ rows (longest columns) (ended n ++ columns); closed = true })
  unfolding zip_loop
  zip_loop_lem zero n [] h e = rw append-nil
  zip_loop_lem zero n (c ∷ cs) h e = absurd (omega (arith, e))
  zip_loop_lem (suc left) n [] h e = absurd (omega (arith, e))
  zip_loop_lem (suc left) n (head ∷ tail) h e =
      rw (zip_head_lem n head tail h, zip_loop)
        (zip_loop_lem left (suc n) (dropped (length head) tail) _
            (length-dropped (length head) tail ∙ omega (arith, e))
          ∙ ap (λ l. ok (record { history = l; closed = true })) joined)
    where
      later : ℕ
      later = longest (dropped (length head) tail)

      joined :
          (h ++ rows (length head) (ended n ++ (head ∷ tail)))
            ++ rows later (ended (suc n) ++ dropped (length head) tail)
          ≡ h ++ rows (longest (head ∷ tail)) (ended n ++ (head ∷ tail))
      joined = rw (
        longest-cons head tail,
        rows-add (length head) later (ended n ++ (head ∷ tail)),
        dropped-ended n head tail,
        append_assoc,
      )

  -- `ZipWith` on two or more outlets, whose elements are all of its type, sends one value for each
  -- row, as many as the longest outlet has elements, and closes its flow: row `i` has the element `i`
  -- of each outlet in the order of the outlets, or the zero value where an outlet has ended.
  pub zip_with_lem :
      (columns : List (List T))
      → 2 ≤ length columns
      → zip_with assert zero_value combine (map (map box) columns)
        ≡ some (ok (record { history = rows (longest columns) columns; closed = true }))
  unfolding zip_with
  zip_with_lem columns enough =
      ground (arith, zip_loop_lem (length columns) 0 columns [] refl, length-boxed columns)
    where
      length-boxed : (cs : List (List T)) → length (map (map box) cs) ≡ length cs
      length-boxed [] = refl
      length-boxed (c ∷ cs) = ap suc (length-boxed cs)
