-- ===== src/Grades/Commands.antt =====
-- The commands of fifo/main.c. Each works in a child process that ends by `exit`. The file names
-- are never `NULL`, so the test of showAll is left out.
pub mod Records
pub mod Find
pub mod RoundTrip
pub mod Listing
pub mod Pages
pub mod Sorting
use system_related_in_c.Base.{
  ℕ, zero, suc, ◌+◌, ◌-◌, ◌*◌, Bool, true, false, ◌&&◌, Option, none, some, List, [], ◌∷◌, ◌++◌,
  ltb, ◌==◌, if◌then◌else◌, length, get_elem?,
}
use system_related_in_c.Base.Int.{ℤ, pos, negsuc, pos_part, neg_part, ◌+ℤ◌, ◌-ℤ◌, ◌*ℤ◌, int}
use system_related_in_c.Grades.Text.{Str, codes, newline, space, Sign, same}
use system_related_in_c.Grades.World.{
  Env, World, Proc, pure, ◌>>=◌, ◌>>◌, exit, undefined, defined, print, append, open_file,
  log_message, fork,
}
use system_related_in_c.Grades.Students.{Student, three_words, load, load_to_five}
use system_related_in_c.Grades.Compare.{compare_by_name, compare_by_grade, sort_order_of}

-- "%s %s's grade: %s\n"
abbrev pub grade_line : Str → Str → Str → Str
grade_line name surname grade =
    name ++ (space ∷ (surname ++ (codes "'s grade: " ++ (grade ++ newline ∷ []))))

abbrev pub grade_lines : List Student → Str
grade_lines [] = []
grade_lines (s ∷ students) = grade_line s.name s.surname s.grade ++ grade_lines students

-- "%s %s %s\n"
abbrev pub record_line : Str → Str → Str → Str
record_line name surname grade = three_words name surname grade ++ newline ∷ []

unfoldable pub find_student : Str → Str → List Student → Option Student
find_student name surname [] = none
find_student name surname (s ∷ students) =
    if same s.name name && same s.surname surname
    then some s
    else find_student name surname students

module _ (env : Env) where
  abbrev pub no_file : Proc (Unit {0})
  no_file = print (codes "Please open a file first.\n")

  unfoldable pub open_command : Str → Proc (Unit {0})
  unfolding open_file log_message
  open_command filename = fork env do
    file ← open_file env filename
    log_message env (codes "File opened successfully ->" ++ filename)
    print (codes "File opened successfully.\n")
    exit 0

  -- What searchStudent says of the student that it has found, or of none.
  unfoldable pub report : Str → Str → Option Student → Proc (Unit {0})
  report name surname none = do
    print (codes "Student " ++ (name ++ (space ∷ (surname ++ codes " not found.\n"))))
    log_message env (codes "Student not found. ->" ++ (name ++ (space ∷ surname)))
  report name surname (some s) = do
    print (grade_line name surname s.grade)
    log_message env (codes "Student searched ->" ++ (s.name ++ (space ∷ s.surname)))

  unfoldable pub search_student : Str → Str → Str → Proc (Unit {0})
  unfolding find_student report
  search_student name surname file_name =
      if length file_name == 0
      then no_file
      else fork env do
        file ← open_file env file_name
        students ← defined (load file)
        report name surname (find_student name surname students)
        exit 0

  -- `line` has 256 bytes, the NUL among them.
  unfoldable pub add_student_grade : Str → Str → Str → Str → Proc (Unit {0})
  add_student_grade name surname grade file_name =
      if length file_name == 0
      then no_file
      else fork env do
        old ← open_file env file_name
        line ← defined (
            if ltb (length (record_line name surname grade)) 256
            then some (record_line name surname grade)
            else none)
        append file_name line
        log_message env (codes "Student Grade Added ->" ++ three_words name surname grade)
        exit 0

  -- A block of `malloc` is not a string yet: what it holds stands before what `strcat` adds, and
  -- anything there is too much for the block.
  unfoldable pub show_sorted : List Student → Proc (Unit {0})
  show_sorted [] = pure tt
  show_sorted (s ∷ students) = do
    print (record_line s.name s.surname s.grade)
    message ←
        defined (
          if length env.malloc_holds == 0
          then some (three_words s.name s.surname s.grade)
          else none)
    log_message env message
    show_sorted students

  module _ (qsort : (Student → Student → Sign) → List Student → List Student) where
    -- The array as it is after the option; any other option leaves it as it was read.
    unfoldable pub sort_students : Str → Str → List Student → List Student
    sort_students order type students =
        if same type (codes "-n")
        then qsort (compare_by_name (sort_order_of order)) students
        else if same type (codes "-g")
        then qsort (compare_by_grade (sort_order_of order)) students
        else students

    unfoldable pub log_sorted : Str → Proc (Unit {0})
    log_sorted type =
        if same type (codes "-n")
        then log_message env (codes "Student are sorted by name succesfully!")
        else if same type (codes "-g")
        then log_message env (codes "Student are sorted by grade succesfully!")
        else pure tt

    unfoldable pub sort_all : Str → Str → Str → Proc (Unit {0})
    sort_all order type file_name =
        if length file_name == 0
        then no_file
        else fork env do
          file ← open_file env file_name
          students ← defined (load file)
          log_sorted type
          show_sorted (sort_students order type students)
          exit 0

  unfoldable pub show_all : Str → Proc (Unit {0})
  show_all file_name = fork env do
    file ← open_file env file_name
    students ← defined (load file)
    print (grade_lines students)
    log_message env (codes "All students are printed")
    exit 0

  unfoldable pub list_grades : Str → Proc (Unit {0})
  list_grades file_name =
      if length file_name == 0
      then no_file
      else fork env do
        file ← open_file env file_name
        students ← defined (load_to_five file)
        print (grade_lines students)
        log_message env (codes "First 5 student are printed")
        exit 0

  -- The loop from `startLine` on, with the number of rounds. An index where no student was
  -- stored is undefined.
  unfoldable pub show_page : ℕ → ℤ → List Student → Proc (Unit {0})
  show_page zero line students = pure tt
  show_page (suc k) (negsuc n) students = undefined
  show_page (suc k) (pos n) students = do
    s ← defined (get_elem? students n)
    print (grade_line s.name s.surname s.grade)
    show_page k (pos (n + 1)) students

  unfoldable pub list_some : Str → ℤ → ℤ → Proc (Unit {0})
  unfolding show_page
  list_some file_name page_num num_entries =
      if length file_name == 0
      then no_file
      else fork env do
        file ← open_file env file_name
        product ← defined (int (pos 5 *ℤ page_num))
        start ← defined (int (product -ℤ pos 5))
        sum ← defined (int (start +ℤ num_entries))
        end ← defined (int (sum -ℤ pos 1))
        students ← defined (load file)
        show_page (pos_part (end +ℤ pos 1 -ℤ start)) start students
        log_message env (codes "Students are listed by page number")
        exit 0
