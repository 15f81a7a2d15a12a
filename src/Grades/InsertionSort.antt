-- ===== src/Grades/InsertionSort.antt =====
-- A `qsort` that keeps its contract, so that what is proved of sortAll has an instance.
use mathlib.Core.List.{Perm}
use mathlib.Core.List.Perm
use system_related_in_c.Base.{
  ◌≡◌, inl, inr, Bool, true, false, List, [], ◌∷◌, if◌then◌else◌, Bool-cases, arith,
}
use system_related_in_c.Grades.Text.{Sign, positive}
use system_related_in_c.Grades.Text.Order.{AtMost}
use system_related_in_c.Grades.Students.{Student}
use system_related_in_c.Grades.Compare.Laws.{IsOrder}
use system_related_in_c.Grades.Commands.Sorting.{Ascending, QsortContract}

abbrev exceeds : Sign → Bool
exceeds positive = true
exceeds _ = false

module _ (cmp : Student → Student → Sign) where
  abbrev insert : Student → List Student → List Student
  insert x [] = x ∷ []
  insert x (y ∷ l) = let rest = insert x l in if exceeds (cmp x y) then y ∷ rest else x ∷ y ∷ l

  abbrev pub insertion_sort : List Student → List Student
  insertion_sort [] = []
  insertion_sort (x ∷ l) = insert x (insertion_sort l)

  insert-Perm : (x : Student) (l : List Student) → Perm (insert x l) (x ∷ l)
  insert-Perm x [] = Perm.refl (x ∷ [])
  insert-Perm x (y ∷ l) = elim (Bool-cases (exceeds (cmp x y))) [
    | inl e ↦ rw e (Perm.trans (Perm.cons y (insert-Perm x l)) (Perm.swap x y l))
    | inr e ↦ rw e (Perm.refl (x ∷ y ∷ l))
  ]

  insertion_sort-Perm : (l : List Student) → Perm (insertion_sort l) l
  insertion_sort-Perm [] = Perm.refl []
  insertion_sort-Perm (x ∷ l) =
      Perm.trans (insert-Perm x (insertion_sort l)) (Perm.cons x (insertion_sort-Perm l))

  module _ (order : IsOrder cmp) where
    AtMost-other : (x y : Student) → exceeds (cmp x y) ≡ true → AtMost (cmp y x)
    AtMost-other x y e = elim (order.total x y) [ inl h ↦ ground arith | inr h ↦ h ]

    insert-behind :
        (x y : Student) (l : List Student)
        → Ascending cmp (y ∷ l)
        → AtMost (cmp y x)
        → Ascending cmp (y ∷ insert x l)
    insert-behind x y [] a h = (h, tt)
    insert-behind x y (z ∷ l) a h = elim (Bool-cases (exceeds (cmp x z))) [
      | inl e ↦ rw e (a.0, insert-behind x z l a.1 (AtMost-other x z e))
      | inr e ↦ rw e (h, ((λ p. ground arith), a.1))
    ]

    insert-Ascending :
        (x : Student) (l : List Student) → Ascending cmp l → Ascending cmp (insert x l)
    insert-Ascending x [] a = tt
    insert-Ascending x (y ∷ l) a = elim (Bool-cases (exceeds (cmp x y))) [
      | inl e ↦ rw e (insert-behind x y l a (AtMost-other x y e))
      | inr e ↦ rw e ((λ p. ground arith), a)
    ]

    insertion_sort-Ascending : (l : List Student) → Ascending cmp (insertion_sort l)
    insertion_sort-Ascending [] = tt
    insertion_sort-Ascending (x ∷ l) =
        insert-Ascending x (insertion_sort l) (insertion_sort-Ascending l)

pub insertion_sort-QsortContract : QsortContract insertion_sort
insertion_sort-QsortContract = record {
  perm = insertion_sort-Perm;
  ascending = λ cmp l order. insertion_sort-Ascending cmp order l;
}
