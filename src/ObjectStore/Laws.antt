-- ===== src/ObjectStore/Laws.antt =====
-- What the writers of an object store have done when `done` is closed.
use go_streams.Prelude.{
  ℕ, ◌≤◌, true, List, [], ◌∷◌, ◌++◌, ◌≡◌, refl, ap, map, concat, SameBag, arith, ℤ, pos,
}
use go_streams.Pool.{Pool, Crash}
use go_streams.Pool.Inv.{produced, all_accepted, Reach-Inv}
use go_streams.Pool.Laws.{closed_complete, no-Crash}
use go_streams.ObjectStore.{
  Upload, object, object_pointer, other, writer_count, upload_body, Uploads,
}

-- The objects among the elements.
abbrev pub objects : {Obj : Type 0} → List (Upload Obj) → List Obj
objects [] = []
objects (object o ∷ es) = o ∷ objects es
objects (object_pointer o ∷ es) = o ∷ objects es
objects (other ∷ es) = objects es

writer_count-positive : (n : ℤ) → 1 ≤ writer_count n
unfolding writer_count
writer_count-positive n = ground arith

module _ {Obj E : Type 0} (write_object : Obj → List E) where
  produced-upload_body :
      (es : List (Upload Obj))
      → produced (upload_body write_object) es ≡ concat (map write_object (objects es))
  unfolding upload_body
  produced-upload_body [] = refl
  produced-upload_body (object o ∷ es) = ap (λ l. write_object o ++ l) (produced-upload_body es)
  produced-upload_body (object_pointer o ∷ es) =
      ap (λ l. write_object o ++ l) (produced-upload_body es)
  produced-upload_body (other ∷ es) = produced-upload_body es

  all_accepted-upload_body :
      (es : List (Upload Obj)) → all_accepted (upload_body write_object) es ≡ true
  unfolding upload_body
  all_accepted-upload_body [] = refl
  all_accepted-upload_body (object o ∷ es) = all_accepted-upload_body es
  all_accepted-upload_body (object_pointer o ∷ es) = all_accepted-upload_body es
  all_accepted-upload_body (other ∷ es) = all_accepted-upload_body es

  module _ (parallelism : ℤ) (given : List (Upload Obj)) {k : ℕ} {s : Pool (Upload Obj) E}
      (reach : Uploads write_object parallelism given k s) where
    pub uploads_complete :
        s.out.closed ≡ true
        → (s.input ≡ []) × SameBag s.out.history (concat (map write_object (objects given)))
    uploads_complete closed = rw (← produced-upload_body given) (
        closed_complete
          (Reach-Inv (writer_count parallelism) (upload_body write_object) given reach)
          (writer_count-positive parallelism) closed)

    uploads_no-Crash : ¬ Crash (writer_count parallelism) (upload_body write_object) s
    uploads_no-Crash =
        no-Crash (Reach-Inv (writer_count parallelism) (upload_body write_object) given reach)
          (all_accepted-upload_body given)

-- A sink leaves its caller's config as a second sink would.
pub writer_count-writer_count : (n : ℤ) → writer_count (pos (writer_count n)) ≡ writer_count n
unfolding writer_count
writer_count-writer_count n = ground arith
