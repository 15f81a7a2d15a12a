-- ===== src/Grades/World/Files.antt =====
-- What opening, appending and logging leave of the files.
use system_related_in_c.Base.{
  ◌≡◌, ◌≢◌, refl, sym, true, false, some, [], ◌∷◌, ◌++◌, append_assoc, ap, inl, inr, Bool-cases,
}
use system_related_in_c.Grades.Text.{Str, codes, newline, same}
use system_related_in_c.Grades.Text.Order.{same_self, same_ne, eq_of_same}
use system_related_in_c.Grades.World.{
  Env, World, ok, exited, content, put_file, open_file, append, log_message, fork, wait, Proc,
}

abbrev pub log_file : Str
log_file = codes "log.txt"

-- The file is there.
pub touch : Str → World → World
touch name w = record w { files = put_file name (content (w.files name)) w.files }

pub extend : Str → Str → World → World
extend name s w = record w { files = put_file name (content (w.files name) ++ s) w.files }

pub logged : Str → World → World
logged message w = extend log_file (newline ∷ []) (extend log_file message (touch log_file w))

pub files-extend_self :
    (name s : Str) (w : World) → (extend name s w).files name ≡ some (content (w.files name) ++ s)
unfolding extend
files-extend_self name s w = rw (same_self name)

pub files-extend_ne :
    (name s : Str) (w : World) {g : Str} → g ≢ name → (extend name s w).files g ≡ w.files g
unfolding extend
files-extend_ne name s w ne = rw (same_ne ne)

pub files-touch_self :
    (name : Str) (w : World) → (touch name w).files name ≡ some (content (w.files name))
unfolding touch
files-touch_self name w = rw (same_self name)

pub files-touch_ne :
    (name : Str) (w : World) {g : Str} → g ≢ name → (touch name w).files g ≡ w.files g
unfolding touch
files-touch_ne name w ne = rw (same_ne ne)

-- A file that was not there is as good as an empty one.
pub content-touch :
    (name : Str) (w : World) (g : Str) → content ((touch name w).files g) ≡ content (w.files g)
unfolding touch
content-touch name w g = elim (Bool-cases (same g name)) [
  | inl e ↦ rw e (ap (λ f. content (w.files f)) (sym (eq_of_same g name e)))
  | inr e ↦ rw e
]

-- The log grows by the message and a new line; the other files and the terminal stay.
pub files-logged_self :
    (message : Str) (w : World)
    → (logged message w).files log_file
      ≡ some (content (w.files log_file) ++ (message ++ newline ∷ []))
unfolding logged
files-logged_self message w = rw (
  files-extend_self log_file (newline ∷ []) (extend log_file message (touch log_file w)),
  files-extend_self log_file message (touch log_file w),
  files-touch_self log_file w,
  append_assoc,
)

pub files-logged_ne :
    (message : Str) (w : World) {g : Str} → g ≢ log_file → (logged message w).files g ≡ w.files g
unfolding logged
files-logged_ne message w ne = rw (
  files-extend_ne log_file (newline ∷ []) (extend log_file message (touch log_file w)) ne,
  files-extend_ne log_file message (touch log_file w) ne,
  files-touch_ne log_file w ne,
)

pub out-logged : (message : Str) (w : World) → (logged message w).out ≡ w.out
unfolding logged extend touch
out-logged message w = refl

pub out-touch : (name : Str) (w : World) → (touch name w).out ≡ w.out
unfolding touch
out-touch name w = refl

pub out-extend : (name s : Str) (w : World) → (extend name s w).out ≡ w.out
unfolding extend
out-extend name s w = refl

-- `print` goes only to the terminal.
pub append-extend : (name s : Str) (w : World) → append name s w ≡ ok tt (extend name s w)
unfolding append extend
append-extend name s w = refl

module _ (env : Env) where
  pub open_file-ok :
      (name : Str) (w : World)
      → env.open_ok name ≡ true
      → open_file env name w ≡ ok (content (w.files name)) (touch name w)
  unfolding open_file touch
  open_file-ok name w can = rw can

  pub open_file-refused :
      (name : Str) (w : World) → env.open_ok name ≡ false → open_file env name w ≡ exited 1 w
  unfolding open_file
  open_file-refused name w cannot = rw cannot

  pub log_message-ok :
      (message : Str) (w : World)
      → env.open_ok log_file ≡ true
      → log_message env message w ≡ ok tt (logged message w)
  unfolding log_message open_file append logged extend touch
  log_message-ok message w can = rw can

  pub fork-ok :
      (child : Proc (Unit {0})) (w : World) → env.fork_ok ≡ true → fork env child w ≡ wait (child w)
  unfolding fork
  fork-ok child w can = rw can
