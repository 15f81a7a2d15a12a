-- ===== src/Grades/Shell/Tests.antt =====
-- The shell of fifo/main.c on lines that are typed, and the theorems at them.
use system_related_in_c.Base.{◌≤◌, ◌≡◌, refl, true, false, none, [], ◌∷◌, arith, length, take}
use system_related_in_c.Grades.Text.{codes, tokens, strcmp}
use system_related_in_c.Grades.World.{Env, World, ok, exited, log_message, open_file}
use system_related_in_c.Grades.InsertionSort.{insertion_sort}
use system_related_in_c.Grades.Shell.{words_of, sighandler, dispatch, shell, round}
use system_related_in_c.Grades.Shell.Errors.{search, too_few_words, words-bound}

abbrev no_files : World
no_files = record { files = λ f. none; out = [] }

-- The system opens no file, and starts no child.
abbrev closed : Env
closed = record { fork_ok = true; open_ok = λ _. false; malloc_holds = [] }

abbrev childless : Env
childless = record { fork_ok = false; open_ok = λ _. true; malloc_holds = [] }

words_test : words_of (codes "showAll  grades.txt\n") ≡ codes "showAll" ∷ codes "grades.txt" ∷ []
unfolding words_of tokens
words_test = refl

shell_test :
    shell closed insertion_sort (codes "listGrades\n" ∷ codes "what\n" ∷ []) no_files
    ≡ ok tt (record no_files { out = codes "> Invalid command.\n> Invalid command.\n" })
unfolding shell round dispatch words_of tokens strcmp
shell_test = refl

too_few_words_test :
    dispatch closed insertion_sort (codes "searchStudent" ∷ codes "Ada" ∷ []) no_files
    ≡ ok tt (record no_files { out = codes "Invalid command.\n" })
too_few_words_test =
    too_few_words closed insertion_sort search (codes "Ada" ∷ []) no_files (omega arith)

words-bound_test : length (words_of (take 255 (codes "showAll grades.txt\n"))) ≤ 255
words-bound_test = words-bound (codes "showAll grades.txt\n")

sighandler_test :
    sighandler closed insertion_sort no_files
    ≡ exited 1 (record no_files { out = codes "\nReceived SIGINT\nExiting ....\n" })
unfolding sighandler log_message open_file
sighandler_test = refl
