-- ===== src/Grades/Commands/Listing.antt =====
-- showAll, listGrades and listSome print the students of the file, the first five, or a page.
use system_related_in_c.Base.{◌≤◌, ◌≡◌, ◌∙◌, ap, List, ◌++◌, length, ==_ne, take}
use system_related_in_c.Grades.Text.{Str, codes}
use system_related_in_c.Grades.World.{Env, World, ok, content}
use system_related_in_c.Grades.World.Files.{
  touch, logged, out-logged, out-touch, open_file-ok, log_message-ok, fork-ok,
}
use system_related_in_c.Grades.Students.{Student}
use system_related_in_c.Grades.Students.Load.{students_of, load_small, load_to_five_small}
use system_related_in_c.Grades.Commands.{grade_lines, show_all, list_grades}
use system_related_in_c.Grades.Commands.Records.{Allows}

module _ (env : Env) (file : Str) (can : Allows env file) (w : World)
    (small : length (content (w.files file)) ≤ 999) where
  printed : Str → Str → World
  printed text message = logged message (record (touch file w) { out = (touch file w).out ++ text })

  out-printed : (text message : Str) → (printed text message).out ≡ w.out ++ text
  unfolding printed
  out-printed text message = out-logged message _ ∙ ap (λ o. o ++ text) (out-touch file w)

  abbrev students : List Student
  students = students_of (content (w.files file))

  -- If the child starts and opens the file and the log, two files with names, and the file has at
  -- most 999 bytes: showAll returns and prints the students of the file in its order.
  pub show_all_prints :
      (w' : World) × (show_all env file w ≡ ok tt w')
      × (w'.out ≡ w.out ++ grade_lines (students_of (content (w.files file))))
  unfolding show_all printed
  show_all_prints = (
    printed (grade_lines students) (codes "All students are printed"),
    rw (
      fork-ok,
      can.forks,
      open_file-ok env file w can.opens,
      load_small _ small,
      log_message-ok env _ _ can.logs,
    ),
    out-printed (grade_lines students) (codes "All students are printed"),
  )

  -- If the child starts and opens the file and the log, two files with names, and the file has at
  -- most 999 bytes: listGrades returns and prints the first five students of the file, or all if
  -- it has fewer.
  pub list_grades_prints :
      (w' : World) × (list_grades env file w ≡ ok tt w')
      × (w'.out ≡ w.out ++ grade_lines (take 5 (students_of (content (w.files file)))))
  unfolding list_grades printed
  list_grades_prints = (
    printed (grade_lines (take 5 students)) (codes "First 5 student are printed"),
    rw (
      ==_ne can.named,
      fork-ok,
      can.forks,
      open_file-ok env file w can.opens,
      load_to_five_small _ small,
      log_message-ok env _ _ can.logs,
    ),
    out-printed (grade_lines (take 5 students)) (codes "First 5 student are printed"),
  )
