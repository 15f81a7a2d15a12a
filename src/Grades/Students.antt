-- ===== src/Grades/Students.antt =====
-- The array of students that the commands of fifo/main.c fill from a file.
pub mod Load
pub mod Append
use system_related_in_c.Base.Options.{◌>>=◌}
use system_related_in_c.Base.{
  ℕ, zero, suc, ◌+◌, Bool, true, false, Option, none, some, List, [], ◌∷◌, ◌++◌, ltb, ◌==◌,
  if◌then◌else◌, length, take, drop,
}
use system_related_in_c.Grades.Text.{Str, newline, space, until_nul, tokens, scan_word}

pub record Student : Type 0 where
  pub name : Str
  pub surname : Str
  pub grade : Str

-- Three words with a space between them, as "%s %s %s" and the calls of `strcat` put them.
abbrev pub three_words : Str → Str → Str → Str
three_words name surname grade = name ++ (space ∷ (surname ++ (space ∷ grade)))

-- The buffer and the array both have this size.
abbrev pub buffer_size : ℕ
buffer_size = 1000

-- `sscanf(line, "%49s %49s %2s", …) == 3`
unfoldable pub scan_student : Str → Option Student
unfolding scan_word
scan_student line = do
  (name, rest) ← scan_word 49 line
  (surname, rest') ← scan_word 49 rest
  (grade, rest'') ← scan_word 2 rest'
  some (record { name = name; surname = surname; grade = grade })

abbrev pub add_scanned : List Student → Option Student → List Student
add_scanned students none = students
add_scanned students (some s) = students ++ s ∷ []

-- One line goes to `students[count]`; `none` is a write behind the end of the array, which a line
-- with a word makes.
unfoldable pub store_line : List Student → Str → Option (List Student)
unfolding scan_student scan_word
store_line students line =
    if ltb (length students) buffer_size
    then some (add_scanned students (scan_student line))
    else elim (scan_word 49 line) [ none ↦ some students | some _ ↦ none ]

unfoldable pub store_lines : List Student → List Str → Option (List Student)
unfolding store_line
store_lines students [] = some students
store_lines students (line ∷ lines) = do
  students' ← store_line students line
  store_lines students' lines

-- The parts of a file that the calls of `read` bring, with fuel.
unfoldable pub reads : ℕ → Str → List Str
reads zero s = []
reads (suc k) [] = []
reads (suc k) (c ∷ s) = take 999 (c ∷ s) ∷ reads k (drop 999 (c ∷ s))

unfoldable pub store_reads : List Student → List Str → Option (List Student)
unfolding store_lines tokens
store_reads students [] = some students
store_reads students (part ∷ parts) = do
  students' ← store_lines students (tokens newline (until_nul part))
  store_reads students' parts

-- Every read brings a byte, so there are at most as many as bytes.
unfoldable pub load : Str → Option (List Student)
unfolding reads store_reads
load file = store_reads [] (reads (length file) file)

-- The same with the `break` at five students, which leaves the loop over the lines of one read.
unfoldable pub store_lines_to_five : List Student → List Str → Option (List Student)
unfolding store_line
store_lines_to_five students [] = some students
store_lines_to_five students (line ∷ lines) = do
  students' ← store_line students line
  let rest = store_lines_to_five students' lines
  if length students' == 5 then some students' else rest

unfoldable pub store_reads_to_five : List Student → List Str → Option (List Student)
unfolding store_lines_to_five tokens
store_reads_to_five students [] = some students
store_reads_to_five students (part ∷ parts) = do
  students' ← store_lines_to_five students (tokens newline (until_nul part))
  store_reads_to_five students' parts

unfoldable pub load_to_five : Str → Option (List Student)
unfolding reads store_reads_to_five
load_to_five file = store_reads_to_five [] (reads (length file) file)
