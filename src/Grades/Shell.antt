-- ===== src/Grades/Shell.antt =====
-- `main` of fifo/main.c: it reads a line, splits it into words and calls the command.
pub mod Errors
mod Tests
use system_related_in_c.Base.{ℕ, none, some, List, [], ◌∷◌, ltb, if◌then◌else◌, length, take}
use system_related_in_c.Grades.Text.{
  Str, codes, newline, space, Sign, until_nul, cut_at, tokens, same, atoi,
}
use system_related_in_c.Grades.World.{
  Env, Proc, pure, exit, log_message, ◌>>=◌, ◌>>◌, undefined, defined, print,
}
use system_related_in_c.Grades.Students.{Student}
use system_related_in_c.Grades.Commands.{
  open_command, search_student, add_student_grade, sort_all, show_all, list_grades, list_some,
}

-- The words of what `read` has put into `input`, 255 bytes at most.
unfoldable pub words_of : List ℕ → List Str
unfolding tokens
words_of input = tokens space (cut_at newline (until_nul input))

abbrev pub invalid : Proc (Unit {0})
invalid = print (codes "Invalid command.\n")

abbrev pub usage : Proc (Unit {0})
usage = do
  print (codes "-----Usage-----\n")
  print (codes "$ gtuStudentGrades <file_name>\n")
  print (codes "$ addStudentGrade <name> <surname> <grade> <filename>\n")
  print (codes "$ searchStudent <name> <surname> <filename>\n")
  print (codes "$ sortAll <-n/-g> <-a/-d> <filename>\n")
  print (codes "$ showAll <filename>\n")
  print (codes "$ listGrades <filename>\n")
  print (codes "$ listSome <num_entries> <page_number> <filename>\n")
  print (codes "$ Ctrl + C to Exit\n")

module _ (env : Env) (qsort : (Student → Student → Sign) → List Student → List Student) where
  -- Each command with the words behind its name.
  -- `strcpy(file_name, words[1])` has 40 bytes.
  abbrev pub gtu_student_grades : List Str → Proc (Unit {0})
  gtu_student_grades [] = usage
  gtu_student_grades (file ∷ rest) = do
    name ← defined (if ltb (length file) 40 then some file else none)
    open_command env name

  abbrev pub add_words : List Str → Proc (Unit {0})
  add_words (name ∷ surname ∷ grade ∷ file ∷ rest) = add_student_grade env name surname grade file
  add_words _ = invalid

  abbrev pub search_words : List Str → Proc (Unit {0})
  search_words (name ∷ surname ∷ file ∷ rest) = search_student env name surname file
  search_words _ = invalid

  abbrev pub sort_words : List Str → Proc (Unit {0})
  sort_words (type ∷ order ∷ file ∷ rest) = sort_all env qsort order type file
  sort_words _ = invalid

  abbrev pub show_words : List Str → Proc (Unit {0})
  show_words (file ∷ rest) = show_all env file
  show_words [] = invalid

  abbrev pub list_words : List Str → Proc (Unit {0})
  list_words (file ∷ rest) = list_grades env file
  list_words [] = invalid

  abbrev pub page_words : List Str → Proc (Unit {0})
  page_words (entries ∷ page ∷ file ∷ rest) = do
    page_num ← defined (atoi page)
    num_entries ← defined (atoi entries)
    list_some env file page_num num_entries
  page_words _ = invalid

  -- The handler of SIGINT. A child that runs has it too.
  unfoldable pub sighandler : Proc (Unit {0})
  sighandler = do
    print (codes "\nReceived SIGINT\n")
    print (codes "Exiting ....\n")
    log_message env (codes "Process Terminated By User")
    exit 0

  -- With no word at all the second test reads `words[0]`, which was never set.
  unfoldable pub dispatch : List Str → Proc (Unit {0})
  dispatch [] = undefined
  dispatch (command ∷ args) =
      if same command (codes "gtuStudentGrades")
      then gtu_student_grades args
      else if same command (codes "addStudentGrade")
      then add_words args
      else if same command (codes "searchStudent")
      then search_words args
      else if same command (codes "sortAll")
      then sort_words args
      else if same command (codes "showAll")
      then show_words args
      else if same command (codes "listGrades")
      then list_words args
      else if same command (codes "listSome")
      then page_words args
      else invalid

  -- One round of the loop, with what is typed; nothing is the end of the input.
  unfoldable pub round : List ℕ → Proc (Unit {0})
  unfolding dispatch words_of
  round [] = do print (codes "> "); print (codes "EOF encountered.\n")
  round (c ∷ typed) = do print (codes "> "); dispatch (words_of (take 255 (c ∷ typed)))

  unfoldable pub shell : List (List ℕ) → Proc (Unit {0})
  unfolding round
  shell [] = pure tt
  shell (typed ∷ lines) = do round typed; shell lines
