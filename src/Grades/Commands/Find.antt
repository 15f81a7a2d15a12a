-- ===== src/Grades/Commands/Find.antt =====
-- The search of searchStudent through the array.
use system_related_in_c.Base.{
  ◌≡◌, refl, sym, subst, ap, Bool, true, false, none, some, List, [], ◌∷◌, ◌++◌, arith, ◌&&◌, inl,
  inr, Bool-cases, All,
}
use system_related_in_c.Grades.Text.{Str, same}
use system_related_in_c.Grades.Text.Order.{same_self, eq_of_same}
use system_related_in_c.Grades.Students.{Student}
use system_related_in_c.Grades.Commands.{find_student}

abbrev pub Matches : Str → Str → Student → Type 0
Matches name surname s = (s.name ≡ name) × (s.surname ≡ surname)

abbrev test : Str → Str → Student → Bool
test name surname t = same t.name name && same t.surname surname

Matches-of-test :
    (name surname : Str) (t : Student) → test name surname t ≡ true → Matches name surname t
Matches-of-test name surname t h =
    (eq_of_same t.name name (ground arith), eq_of_same t.surname surname (ground arith))

not-Matches :
    (name surname : Str) (t : Student) → test name surname t ≡ false → ¬ Matches name surname t
not-Matches name surname t h (e, e') = cc (
  subst (λ x. test x t.surname t ≡ false) (sym e) (subst (λ x. test name x t ≡ false) (sym e') h),
  both,
)
  where
    both : test t.name t.surname t ≡ true
    both = rw (same_self t.name, same_self t.surname)

-- A student that searchStudent finds has both names, and no student before it has both.
pub find_student-first :
    (name surname : Str) (students : List Student) (s : Student)
    → find_student name surname students ≡ some s
    → (before : List Student) × (after : List Student) × (students ≡ before ++ s ∷ after)
      × Matches name surname s
      × All (λ t. ¬ Matches name surname t) before
unfolding find_student
find_student-first name surname [] s e = cc
find_student-first name surname (t ∷ students) s e = elim (Bool-cases (test name surname t)) [
  | inl m ↦
      let here : t ≡ s = ground arith in
      ([], students, ap (λ x. x ∷ students) here, rw here at (Matches-of-test name surname t m), tt)
  | inr m ↦
      let (before, after, eq, found, others) =
        find_student-first name surname students s (ground arith) in
      (t ∷ before, after, ap (λ l. t ∷ l) eq, found, (not-Matches name surname t m, others))
]

-- If searchStudent finds no student, none has both names.
pub find_student-none :
    (name surname : Str) (students : List Student)
    → find_student name surname students ≡ none
    → All (λ t. ¬ Matches name surname t) students
unfolding find_student
find_student-none name surname [] e = tt
find_student-none name surname (t ∷ students) e = elim (Bool-cases (test name surname t)) [
  | inl m ↦ absurd (ground arith)
  | inr m ↦ (not-Matches name surname t m, find_student-none name surname students (ground arith))
]

pub find_student-append :
    (name surname : Str) (students : List Student) (s : Student)
    → find_student name surname students ≡ none
    → find_student name surname (students ++ s ∷ []) ≡ find_student name surname (s ∷ [])
unfolding find_student
find_student-append name surname [] s e = refl
find_student-append name surname (t ∷ students) s e =
    elim (Bool-cases (same t.name name && same t.surname surname)) [
      | inl m ↦ absurd (ground (arith))
      | inr m ↦ rw m (find_student-append name surname students s (ground arith))
    ]
