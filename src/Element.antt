-- ===== src/Element.antt =====
-- Elements of type `any`, and the type assertions by which an operator reads them as its `T`.
use go_streams.Prelude.{Bool, true, false, Option, none, some, List, [], ◌∷◌, ◌≡◌}

-- What Go's `any` and a type `T` give: conversion, `element.(T)` and the comparison with nil. The
-- laws are those of the language: a nil interface never passes an assertion, and a value that is
-- not nil passes the assertion to its own type.
pub record GoType (Any T : Type 0) : Type 0 where
  pub box : T → Any
  pub assert : Any → Option T
  pub nil : Any
  pub is_nil : Any → Bool
  pub is_nil-nil : is_nil nil ≡ true
  pub assert-nil : (a : Any) → is_nil a ≡ true → assert a ≡ none
  pub assert-box : (t : T) → is_nil (box t) ≡ false → assert (box t) ≡ some t

module _ {Any T : Type 0} (assert : Any → Option T) where
  -- The elements up to the first that fails its assertion.
  abbrev pub typed_prefix : List Any → List T
  typed_prefix [] = []
  typed_prefix (e ∷ es) = elim (assert e) [ none ↦ [] | some t ↦ t ∷ typed_prefix es ]

  abbrev pub all_typed : List Any → Bool
  all_typed [] = true
  all_typed (e ∷ es) = elim (assert e) [ none ↦ false | some t ↦ all_typed es ]
