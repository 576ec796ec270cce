-- ===== src/Examples/Data.antt =====
-- The elements of the examples: numbers, texts, and a nil that the type `Option ℕ` shares.
use go_streams.Prelude.{ℕ, Bool, true, false, Option, none, some, ◌≡◌, refl}
use go_streams.Element.{GoType}

pub data Dynamic : Type 0 where
  absent text : Dynamic
  number : ℕ → Dynamic

abbrev pub as_number : Dynamic → Option ℕ
as_number (number n) = some n
as_number _ = none

abbrev pub box_pointer : Option ℕ → Dynamic
box_pointer none = absent
box_pointer (some n) = number n

abbrev pub as_pointer : Dynamic → Option (Option ℕ)
as_pointer (number n) = some (some n)
as_pointer _ = none

abbrev pub is_absent : Dynamic → Bool
is_absent absent = true
is_absent _ = false

pub as_pointer-absent : (a : Dynamic) → is_absent a ≡ true → as_pointer a ≡ none
as_pointer-absent absent h = refl
as_pointer-absent text h = cc
as_pointer-absent (number n) h = cc

pub as_pointer-box :
    (t : Option ℕ) → is_absent (box_pointer t) ≡ false → as_pointer (box_pointer t) ≡ some t
as_pointer-box none h = cc
as_pointer-box (some n) h = refl

-- Pointers to numbers, with a nil that loses its type in a conversion to `any`.
abbrev pub pointers : GoType Dynamic (Option ℕ)
pointers = record {
  box = box_pointer;
  assert = as_pointer;
  nil = absent;
  is_nil = is_absent;
  is_nil-nil = refl;
  assert-nil = as_pointer-absent;
  assert-box = as_pointer-box;
}
