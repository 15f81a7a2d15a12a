-- ===== src/Grades/Tests.antt =====
-- The commands of fifo/main.c on a small file, and the theorems at it.
use mathlib.Core.List.{Perm}
use system_related_in_c.Base.{
  ℕ, ◌≤◌, ◌≡◌, ◌≢◌, refl, Bool, not, ◌&&◌, true, false, none, some, List, [], ◌∷◌, ◌++◌, arith,
  length, All, inr, ◌==◌, if◌then◌else◌,
}
use system_related_in_c.Grades.Text.{Str, codes, negative, same, is_space, tokens, strcmp}
use system_related_in_c.Grades.Text.Scan.{IsWord, word}
use system_related_in_c.Grades.World.{Env, World, ok, fault}
use system_related_in_c.Grades.World.Files.{log_file}
use system_related_in_c.Grades.Students.{Student, scan_student, load, load_to_five}
use system_related_in_c.Grades.Students.Load.{scanned, students_of, load_small, load_to_five_small}
use system_related_in_c.Grades.Students.Append.{Complete}
use system_related_in_c.Grades.Compare.{compare_by_name, compare_by_grade}
use system_related_in_c.Grades.Compare.Laws.{
  IsOrder, compare_by_name-IsOrder, compare_by_grade-IsOrder,
}
use system_related_in_c.Grades.Commands.{
  find_student, search_student, add_student_grade, sort_all, show_all, list_grades, list_some,
}
use system_related_in_c.Grades.Commands.Records.{Allows, add_student_grade_lem}
use system_related_in_c.Grades.Commands.Find.{Matches, find_student-first, find_student-none}
use system_related_in_c.Grades.Commands.RoundTrip.{add_then_search}
use system_related_in_c.Grades.Commands.Listing.{show_all_prints, list_grades_prints}
use system_related_in_c.Grades.Commands.Pages.{list_some_prints, list_some_past}
use system_related_in_c.Base.Int.{pos}
use system_related_in_c.Grades.Commands.Sorting.{
  Ascending, by_name, down, in_order, record_lines, sort_all_sorts,
}
use system_related_in_c.Grades.InsertionSort.{insertion_sort, insertion_sort-QsortContract}

abbrev env : Env
env = record { fork_ok = true; open_ok = λ _. true; malloc_holds = [] }

abbrev file : Str
file = codes "grades.txt"

abbrev text : Str
text = codes "Ada Lovelace AA\nAlan Turing BB\n"

abbrev world : World
world = record { files = λ f. if same f file then some text else none; out = [] }

can : Allows env file
can = record { forks = refl; opens = refl; logs = refl; named = cc; not_log = cc }

abbrev ada : Student
ada = record { name = codes "Ada"; surname = codes "Lovelace"; grade = codes "AA" }

abbrev alan : Student
alan = record { name = codes "Alan"; surname = codes "Turing"; grade = codes "BB" }

students_test : students_of text ≡ ada ∷ alan ∷ []
unfolding scanned tokens scan_student
students_test = refl

-- Neither white space nor NUL.
abbrev is_letter : ℕ → Bool
is_letter c = not (is_space c) && not (c == 0)

abbrev all : (ℕ → Bool) → Str → Bool
all test [] = true
all test (c ∷ s) = test c && all test s

All-all :
    (test : ℕ → Bool) (P : ℕ → Type 0)
    → ((c : ℕ) → test c ≡ true → P c)
    → (s : Str) → all test s ≡ true
    → All P s
All-all test P h [] e = tt
All-all test P h (c ∷ s) e = (h c (ground arith), All-all test P h s (ground arith))

IsWord-of :
    (n c : ℕ) (w : Str) → all is_letter (c ∷ w) ≡ true → length (c ∷ w) ≤ n → IsWord n (c ∷ w)
IsWord-of n c w letters le =
    word c w (All-all is_letter (λ c. is_space c ≡ false) (λ c e. ground arith) (c ∷ w) letters) le
      (All-all is_letter (λ c. c ≢ 0) (λ c e. ground arith) (c ∷ w) letters)

grace-IsWord : IsWord 49 (codes "Grace")
grace-IsWord = IsWord-of 49 _ _ refl (omega arith)

hopper-IsWord : IsWord 49 (codes "Hopper")
hopper-IsWord = IsWord-of 49 _ _ refl (omega arith)

aa-IsWord : IsWord 2 (codes "AA")
aa-IsWord = IsWord-of 2 _ _ refl (omega arith)

text-bytes : All (λ c. c ≢ 0) text
text-bytes = All-all (λ c. not (c == 0)) (λ c. c ≢ 0) (λ c e. ground arith) text refl

text-Complete : Complete text
text-Complete = inr (codes "Ada Lovelace AA\nAlan Turing BB", refl)

add_then_search_example :
    (w' : World) × (w'' : World) × (add_student_grade env
        (codes "Grace")
        (codes "Hopper")
        (codes "AA")
        file
        world
      ≡ ok tt w')
    × (search_student env (codes "Grace") (codes "Hopper") file w' ≡ ok tt w'')
    × (w''.out ≡ codes "Grace Hopper's grade: AA\n")
unfolding find_student scanned tokens scan_student strcmp
add_then_search_example =
    add_then_search env file (codes "Grace") (codes "Hopper") (codes "AA") world can grace-IsWord
      hopper-IsWord aa-IsWord text-Complete text-bytes (omega arith) refl

add_student_grade_lem_example :
    (w' : World) × (add_student_grade env (codes "Grace") (codes "Hopper") (codes "AA") file world
      ≡ ok tt w')
    × (w'.files file ≡ some (codes "Ada Lovelace AA\nAlan Turing BB\nGrace Hopper AA\n"))
    × (w'.files log_file ≡ some (codes "Student Grade Added ->Grace Hopper AA\n"))
    × ((g : Str) → g ≢ file → g ≢ log_file → w'.files g ≡ world.files g)
    × (w'.out ≡ [])
unfolding strcmp
add_student_grade_lem_example =
    add_student_grade_lem env file can (codes "Grace") (codes "Hopper") (codes "AA") world
      (omega arith)

show_all_prints_test :
    (w' : World) × (show_all env file world ≡ ok tt w')
    × (w'.out ≡ codes "Ada Lovelace's grade: AA\nAlan Turing's grade: BB\n")
unfolding scanned tokens scan_student strcmp
show_all_prints_test = show_all_prints env file can world (omega arith)

list_grades_prints_test :
    (w' : World) × (list_grades env file world ≡ ok tt w')
    × (w'.out ≡ codes "Ada Lovelace's grade: AA\nAlan Turing's grade: BB\n")
unfolding scanned tokens scan_student strcmp
list_grades_prints_test = list_grades_prints env file can world (omega arith)

sort_all_sorts_example :
    (w' : World) × (l : List Student) × (sort_all env insertion_sort
        (codes "-d")
        (codes "-n")
        file
        world
      ≡ ok tt w')
    × (w'.out ≡ record_lines l)
    × Perm l (students_of text)
    × Ascending (in_order by_name down) l
unfolding strcmp
sort_all_sorts_example =
    sort_all_sorts env file by_name down world insertion_sort insertion_sort-QsortContract can refl
      (omega arith)

sort_test : insertion_sort (compare_by_name negative) (ada ∷ alan ∷ []) ≡ alan ∷ ada ∷ []
unfolding compare_by_name strcmp
sort_test = refl

find_student-first_test :
    (before : List Student) × (after : List Student) × (ada ∷ alan ∷ [] ≡ before ++ alan ∷ after)
    × Matches (codes "Alan") (codes "Turing") alan
    × All (λ t. ¬ Matches (codes "Alan") (codes "Turing") t) before
unfolding find_student strcmp
find_student-first_test =
    find_student-first (codes "Alan") (codes "Turing") (ada ∷ alan ∷ []) alan refl

find_student-none_test : All (λ t. ¬ Matches (codes "Ada") (codes "Turing") t) (ada ∷ alan ∷ [])
unfolding find_student strcmp
find_student-none_test = find_student-none (codes "Ada") (codes "Turing") (ada ∷ alan ∷ []) refl

compare_by_name-IsOrder_test : IsOrder (compare_by_name negative)
compare_by_name-IsOrder_test = compare_by_name-IsOrder negative (λ e. cc e)

compare_by_grade-IsOrder_test : IsOrder (compare_by_grade negative)
compare_by_grade-IsOrder_test = compare_by_grade-IsOrder negative (λ e. cc e)

load_test : load text ≡ some (ada ∷ alan ∷ [])
unfolding scanned tokens scan_student
load_test = load_small text (omega arith)

load_to_five_test : load_to_five text ≡ some (ada ∷ alan ∷ [])
unfolding scanned tokens scan_student
load_to_five_test = load_to_five_small text (omega arith)

list_some_prints_example :
    (w' : World) × (list_some env file (pos 1) (pos 2) world ≡ ok tt w')
    × (w'.out ≡ codes "Ada Lovelace's grade: AA\nAlan Turing's grade: BB\n")
unfolding scanned tokens scan_student strcmp
list_some_prints_example =
    list_some_prints env file 1 2 world can (omega arith) (omega arith) (omega arith) (omega arith)

list_some_past_example : list_some env file (pos 1) (pos 5) world ≡ fault
unfolding scanned tokens scan_student strcmp
list_some_past_example =
    list_some_past env file 1 5 world can (omega arith) (omega arith) (omega arith) (omega arith)
      (omega arith)
