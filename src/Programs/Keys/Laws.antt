-- ===== src/Programs/Keys/Laws.antt =====
-- Which objects get the same key (examples/azure/blob/main.go, examples/aws/s3/main.go).
use go_streams.Prelude.{
  ℕ, ◌+◌, ◌*◌, ◌<◌, List, [], ◌∷◌, ◌++◌, ◌≡◌, ◌≢◌, refl, ap, arith, length, length-append,
  get_elem?, none, some, ltb, ltb→lt, Bool-cases, inl, inr, ◌⊎◌,
}
use go_streams.Programs.Keys.{slash, txt, source_name, sink_name, get_key, s3_transform}

append_inj :
    {A : Type 0} (xs ys xs' ys' : List A) → length xs ≡ length ys → xs ++ xs' ≡ ys ++ ys' → xs ≡ ys
append_inj [] [] xs' ys' n h = refl
append_inj [] (y ∷ ys) xs' ys' n h = absurd (omega arith)
append_inj (x ∷ xs) [] xs' ys' n h = absurd (omega arith)
append_inj (x ∷ xs) (y ∷ ys) xs' ys' n h =
    let rest = append_inj xs ys xs' ys' (omega arith) cc in cc

-- A key is of one of two forms, and its length tells which.
KeyForm : List ℕ → Type 0
KeyForm v =
    ((length v < 2) × (get_key v ≡ v ++ txt) × (length (get_key v) ≡ length v + 4))
    ⊎ ((1 < length v)
        × (get_key v ≡ v ++ (slash ∷ (v ++ txt)))
        × (length (get_key v) ≡ 2 * length v + 5))

key_form : (v : List ℕ) → KeyForm v
unfolding KeyForm get_key
key_form v = elim (Bool-cases (ltb 1 (length v))) [
  | inl h ↦ inr (
    ltb→lt 1 (length v) h,
    rw h,
    rw h (omega (arith, length-append v (slash ∷ (v ++ txt)), length-append v txt)),
  )
  | inr h ↦ inl (ground arith, rw h, rw h (omega (arith, length-append v txt)))
]

forms_agree : (v w : List ℕ) → KeyForm v → KeyForm w → get_key v ≡ get_key w → v ≡ w
unfolding KeyForm
forms_agree v w (inl (sv, ev, nv)) (inl (sw, ew, nw)) h =
    append_inj v w txt txt (omega (arith, ap length h)) cc
forms_agree v w (inl (sv, ev, nv)) (inr (lw, ew, nw)) h = absurd (omega (arith, ap length h))
forms_agree v w (inr (lv, ev, nv)) (inl (sw, ew, nw)) h = absurd (omega (arith, ap length h))
forms_agree v w (inr (lv, ev, nv)) (inr (lw, ew, nw)) h =
    append_inj v w (slash ∷ (v ++ txt)) (slash ∷ (w ++ txt)) (omega (arith, ap length h)) cc

-- `getKey` stores different strings under different keys.
pub get_key-injective : (v w : List ℕ) → get_key v ≡ get_key w → v ≡ w
get_key-injective v w h = forms_agree v w (key_form v) (key_form w) h

-- The ninth byte of a key.
ninth : List ℕ → ℕ
ninth key = elim (get_elem? key 8) [ none ↦ 0 | some c ↦ c ]

-- The S3 program renames two objects of its source to one key, whatever follows: those under
-- "source/source" and "source/sink", so that the one that is written later takes the place of
-- the other.
s3_transform-collides :
    (rest : List ℕ)
    → (s3_transform (source_name ++ (slash ∷ (source_name ++ rest)))
        ≡ s3_transform (source_name ++ (slash ∷ (sink_name ++ rest))))
      × (source_name ++ (slash ∷ (source_name ++ rest))
          ≢ source_name ++ (slash ∷ (sink_name ++ rest)))
unfolding s3_transform ninth
s3_transform-collides rest = (refl, λ h. omega (arith, ap ninth h))
