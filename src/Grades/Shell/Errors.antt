-- ===== src/Grades/Shell/Errors.antt =====
-- What the shell does with a line that is no command, with too few words, and with a command whose
-- child cannot be started or cannot open its file.
use system_related_in_c.Base.{
  ℕ, ◌≤◌, ◌<◌, ◌≡◌, refl, List, [], ◌∷◌, ◌++◌, arith, length, take, length-take-le,
}
use system_related_in_c.Grades.Text.{Str, newline, space, cut_at, until_nul, codes, Sign, strcmp}
use system_related_in_c.Base.Int.{ℤ}
use system_related_in_c.Grades.Text.Split.{length-tokens-le, length-cut_at-le, length-until_nul-le}
use system_related_in_c.Grades.World.{Env, World, Outcome, ok}
use system_related_in_c.Grades.Students.{Student}
use system_related_in_c.Grades.Commands.{
  open_command, search_student, add_student_grade, sort_all, show_all, list_grades, list_some,
}
use system_related_in_c.Grades.Shell.{words_of, dispatch}

-- The commands that want words behind their name.
pub data Command : Type 0 where
  add_student : Command
  search : Command
  sort : Command
  show : Command
  list : Command
  list_page : Command

abbrev pub name_of : Command → Str
name_of add_student = codes "addStudentGrade"
name_of search = codes "searchStudent"
name_of sort = codes "sortAll"
name_of show = codes "showAll"
name_of list = codes "listGrades"
name_of list_page = codes "listSome"

abbrev pub wants : Command → ℕ
wants add_student = 4
wants search = 3
wants sort = 3
wants show = 1
wants list = 1
wants list_page = 3

module _ (env : Env) (qsort : (Student → Student → Sign) → List Student → List Student) where
  -- A command with fewer words behind its name than it wants prints "Invalid command." and does
  -- nothing else.
  pub too_few_words :
      (c : Command) (args : List Str) (w : World)
      → length args < wants c
      → dispatch env qsort (name_of c ∷ args) w
        ≡ ok tt (record w { out = w.out ++ codes "Invalid command.\n" })
  unfolding dispatch strcmp
  too_few_words add_student [] w few = refl
  too_few_words add_student (a ∷ []) w few = refl
  too_few_words add_student (a ∷ b ∷ []) w few = refl
  too_few_words add_student (a ∷ b ∷ c ∷ []) w few = refl
  too_few_words add_student (a ∷ b ∷ c ∷ d ∷ args) w few = absurd (omega arith)
  too_few_words search [] w few = refl
  too_few_words search (a ∷ []) w few = refl
  too_few_words search (a ∷ b ∷ []) w few = refl
  too_few_words search (a ∷ b ∷ c ∷ args) w few = absurd (omega arith)
  too_few_words sort [] w few = refl
  too_few_words sort (a ∷ []) w few = refl
  too_few_words sort (a ∷ b ∷ []) w few = refl
  too_few_words sort (a ∷ b ∷ c ∷ args) w few = absurd (omega arith)
  too_few_words show [] w few = refl
  too_few_words show (a ∷ args) w few = absurd (omega arith)
  too_few_words list [] w few = refl
  too_few_words list (a ∷ args) w few = absurd (omega arith)
  too_few_words list_page [] w few = refl
  too_few_words list_page (a ∷ []) w few = refl
  too_few_words list_page (a ∷ b ∷ []) w few = refl
  too_few_words list_page (a ∷ b ∷ c ∷ args) w few = absurd (omega arith)

-- Every command that works in a child, on one file.
abbrev pub all_commands :
    Env
    → ((Student → Student → Sign) → List Student → List Student)
    → Str
    → Str
    → Str
    → Str
    → ℤ
    → ℤ
    → List (World → Outcome (Unit {0}))
all_commands env qsort file a b c i j =
    open_command env file
    ∷ add_student_grade env a b c file
    ∷ search_student env a b file
    ∷ sort_all env qsort a b file
    ∷ show_all env file
    ∷ list_grades env file
    ∷ list_some env file i j
    ∷ []

-- What one `read` brings makes at most 255 words, so the array of 256 takes them all.
pub words-bound : (typed : List ℕ) → length (words_of (take 255 typed)) ≤ 255
unfolding words_of
words-bound typed = omega (
  arith,
  length-tokens-le space (cut_at newline (until_nul (take 255 typed))),
  length-cut_at-le newline (until_nul (take 255 typed)),
  length-until_nul-le (take 255 typed),
  length-take-le 255 typed,
)
