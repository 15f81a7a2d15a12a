-- ===== src/Grades/Commands/RoundTrip.antt =====
-- What addStudentGrade writes, searchStudent finds.
use system_related_in_c.Base.{
  ◌≤◌, ◌<◌, ◌≡◌, ◌≢◌, ◌∙◌, ap, none, some, List, [], ◌∷◌, ◌++◌, arith, length, length-append, All,
}
use system_related_in_c.Grades.Text.{Str, newline, space}
use system_related_in_c.Grades.Text.Order.{same_self}
use system_related_in_c.Grades.Text.Scan.{IsWord, IsWord-length}
use system_related_in_c.Grades.World.{Env, World, ok, content}
use system_related_in_c.Grades.Students.{Student, three_words}
use system_related_in_c.Grades.Students.Load.{students_of}
use system_related_in_c.Grades.Students.Append.{Complete, students_of-append}
use system_related_in_c.Grades.Commands.{
  record_line, grade_line, find_student, search_student, add_student_grade,
}
use system_related_in_c.Grades.Commands.Records.{Allows, add_student_grade_lem, search_student_lem}
use system_related_in_c.Grades.Commands.Find.{find_student-append}

-- The new student is found behind others of which none has both names.
find_student-added :
    (name surname grade : Str) (students : List Student)
    → find_student name surname students ≡ none
    → find_student name surname
        (students ++ record { name = name; surname = surname; grade = grade } ∷ [])
      ≡ some (record { name = name; surname = surname; grade = grade })
find_student-added name surname grade students unknown =
    find_student-append name surname students _ unknown
    ∙ (unfold find_student in rw (same_self name, same_self surname))

record_line-short :
    (name surname grade : Str)
    → IsWord 49 name
    → IsWord 49 surname
    → IsWord 2 grade
    → length (record_line name surname grade) < 256
record_line-short name surname grade n s g = omega (
  arith,
  IsWord-length 49 name n,
  IsWord-length 49 surname s,
  IsWord-length 2 grade g,
  length-append {0} (three_words name surname grade) (newline ∷ []),
  length-append {0} name (space ∷ (surname ++ (space ∷ grade))),
  length-append {0} surname (space ∷ grade),
)

-- If children start and open the file and the log, two files with names, and the file is made of
-- whole lines without a NUL, stays within 999 bytes with the new line, and holds no student of
-- both names: addStudentGrade of words of at most 49, 49 and 2 bytes, then searchStudent, both
-- return, and print the new student's grade and nothing else.
pub add_then_search :
    (env : Env) (file name surname grade : Str) (w : World)
    → Allows env file
    → IsWord 49 name
    → IsWord 49 surname
    → IsWord 2 grade
    → Complete (content (w.files file))
    → All (λ c. c ≢ 0) (content (w.files file))
    → length (content (w.files file) ++ record_line name surname grade) ≤ 999
    → find_student name surname (students_of (content (w.files file))) ≡ none
    → (w' : World) × (w'' : World) × (add_student_grade env name surname grade file w ≡ ok tt w')
      × (search_student env name surname file w' ≡ ok tt w'')
      × (w''.out ≡ w.out ++ grade_line name surname grade)
add_then_search env file name surname grade w can n s g whole bytes small unknown =
    let (w', added, now, _, _, quiet) =
      add_student_grade_lem env file can name surname grade w
        (record_line-short name surname grade n s g) in
    let holds : content (w'.files file) ≡ content (w.files file) ++ record_line name surname grade =
      ap content now in
    let (w'', searched, said, _) =
      search_student_lem env file can name surname w' (rw holds small) in
    let found =
      ap (λ c. find_student name surname (students_of c)) holds
      ∙ ap (find_student name surname)
          (students_of-append name surname grade n s g (content (w.files file)) whole bytes)
      ∙ find_student-added name surname grade (students_of (content (w.files file))) unknown in
    (w', w'', added, searched, said ∙ rw (quiet, found))
