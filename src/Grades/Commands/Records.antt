-- ===== src/Grades/Commands/Records.antt =====
-- addStudentGrade and searchStudent.
use system_related_in_c.Base.{
  ◌≤◌, ◌<◌, ◌≡◌, ◌≢◌, refl, sym, ◌∙◌, ap, true, Option, none, some, [], ◌∷◌, ◌++◌, length, lt→ltb,
  ==_ne,
}
use system_related_in_c.Grades.Text.{Str, codes, newline, space}
use system_related_in_c.Grades.World.{Env, World, Outcome, ok, content}
use system_related_in_c.Grades.World.Files.{
  log_file, touch, extend, logged, files-extend_self, files-extend_ne, files-touch_self,
  files-touch_ne, files-logged_self, files-logged_ne, out-logged, out-touch, out-extend,
  content-touch, append-extend, open_file-ok, log_message-ok, fork-ok,
}
use system_related_in_c.Grades.Students.{Student, three_words}
use system_related_in_c.Grades.Students.Load.{students_of, load_small}
use system_related_in_c.Grades.Commands.{
  record_line, grade_line, find_student, search_student, add_student_grade,
}

-- The system lets the commands fork, and open a file and the log, which are two files.
pub record Allows (env : Env) (file : Str) : Type 0 where
  pub forks : env.fork_ok ≡ true
  pub opens : env.open_ok file ≡ true
  pub logs : env.open_ok log_file ≡ true
  pub named : length file ≢ 0
  pub not_log : file ≢ log_file

-- What searchStudent prints of a student that it has found, or of none.
abbrev pub answer : Str → Str → Option Student → Str
answer name surname none =
    codes "Student " ++ (name ++ (space ∷ (surname ++ codes " not found.\n")))
answer name surname (some s) = grade_line name surname s.grade

module _ (env : Env) (file : Str) (can : Allows env file) where
  add_student_grade-world :
      (name surname grade : Str) (w : World)
      → length (record_line name surname grade) < 256
      → add_student_grade env name surname grade file w
        ≡ ok tt (
            logged
              (codes "Student Grade Added ->" ++ three_words name surname grade)
              (extend file (record_line name surname grade) (touch file w)))
  unfolding add_student_grade
  add_student_grade-world name surname grade w short = rw (
    ==_ne can.named,
    fork-ok,
    can.forks,
    open_file-ok env file w can.opens,
    lt→ltb short,
    append-extend,
    log_message-ok env (codes "Student Grade Added ->" ++ three_words name surname grade)
        (extend file (record_line name surname grade) (touch file w)) can.logs,
  )

  -- If the child starts and opens the file and the log, two files with names, and the line has
  -- fewer than 256 bytes: addStudentGrade returns, its line is at the end of the file and its
  -- message at the end of the log, no other file changes, and nothing is printed.
  pub add_student_grade_lem :
      (name surname grade : Str) (w : World)
      → length (record_line name surname grade) < 256
      → (w' : World) × (add_student_grade env name surname grade file w ≡ ok tt w')
        × (w'.files file ≡ some (content (w.files file) ++ record_line name surname grade))
        × (w'.files log_file
            ≡ some (
                content (w.files log_file)
                ++ (codes "Student Grade Added ->"
                    ++ three_words name surname grade
                    ++ newline ∷ [])))
        × ((g : Str) → g ≢ file → g ≢ log_file → w'.files g ≡ w.files g)
        × (w'.out ≡ w.out)
  add_student_grade_lem name surname grade w short = (
    logged message (extend file line (touch file w)),
    add_student_grade-world name surname grade w short,
    files-logged_ne message _ can.not_log
        ∙ files-extend_self file line (touch file w)
        ∙ ap (λ c. some (content c ++ line)) (files-touch_self file w),
    files-logged_self message _
        ∙ ap (λ c. some (content c ++ (message ++ newline ∷ [])))
            (files-extend_ne file line (touch file w) log_ne ∙ files-touch_ne file w log_ne),
    λ g not_file not_log.
        files-logged_ne message _ not_log
        ∙ files-extend_ne file line (touch file w) not_file
        ∙ files-touch_ne file w not_file,
    out-logged message _ ∙ out-extend file line (touch file w) ∙ out-touch file w,
  )
    where
      line : Str
      line = record_line name surname grade

      message : Str
      message = codes "Student Grade Added ->" ++ three_words name surname grade

      log_ne : log_file ≢ file
      log_ne e = can.not_log (sym e)

  -- searchStudent prints its answer, and leaves every file but the log as it was.
  abbrev Searched : Str → World → World → Outcome (Unit {0}) → Type 0
  Searched text w w' r =
      (r ≡ ok tt w')
      × (w'.out ≡ w.out ++ text)
      × ((g : Str) → g ≢ log_file → content (w'.files g) ≡ content (w.files g))

  printed_world : Str → Str → World → World
  printed_world text message w =
      logged message (record (touch file w) { out = (touch file w).out ++ text })

  printed_world-Searched :
      (text message : Str) (w : World)
      → Searched text w (printed_world text message w) (ok tt (printed_world text message w))
  unfolding printed_world
  printed_world-Searched text message w = (
    refl,
    out-logged message _ ∙ ap (λ o. o ++ text) (out-touch file w),
    λ g ne. ap content (files-logged_ne message _ ne) ∙ content-touch file w g,
  )

  abbrev message_of : Str → Str → Option Student → Str
  message_of name surname none = codes "Student not found. ->" ++ (name ++ (space ∷ surname))
  message_of name surname (some s) = codes "Student searched ->" ++ (s.name ++ (space ∷ s.surname))

  search_student-world :
      (name surname : Str) (w : World) (o : Option Student)
      → length (content (w.files file)) ≤ 999
      → find_student name surname (students_of (content (w.files file))) ≡ o
      → search_student env name surname file w
        ≡ ok tt (printed_world (answer name surname o) (message_of name surname o) w)
  unfolding search_student printed_world
  search_student-world name surname w none small found = rw (
    ==_ne can.named,
    fork-ok,
    can.forks,
    open_file-ok env file w can.opens,
    load_small _ small,
    found,
    log_message-ok env _ _ can.logs,
  )
  search_student-world name surname w (some s) small found = rw (
    ==_ne can.named,
    fork-ok,
    can.forks,
    open_file-ok env file w can.opens,
    load_small _ small,
    found,
    log_message-ok env _ _ can.logs,
  )

  pub search_student_lem :
      (name surname : Str) (w : World)
      → length (content (w.files file)) ≤ 999
      → (w' : World) × (search_student env name surname file w ≡ ok tt w')
        × (w'.out
            ≡ w.out
              ++ answer name surname
                  (find_student name surname (students_of (content (w.files file)))))
        × ((g : Str) → g ≢ log_file → content (w'.files g) ≡ content (w.files g))
  search_student_lem name surname w small =
      let o = find_student name surname (students_of (content (w.files file))) in
      let done = printed_world-Searched (answer name surname o) (message_of name surname o) w in
      (_, search_student-world name surname w o small refl, done.1, done.2)
