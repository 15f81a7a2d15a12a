-- ===== src/Grades/World.antt =====
-- What a process of fifo/main.c acts on: files and the terminal, and how it ends.
pub mod Files
use system_related_in_c.Base.{
  ℕ, Bool, true, false, ◌&&◌, Option, none, some, List, [], ◌∷◌, ◌++◌, if◌then◌else◌,
}
use system_related_in_c.Grades.Text.{Str, codes, newline, same}

-- The answers of the system: whether `fork` succeeds, and which files `open` may open or create.
-- `malloc`, `close` and `write` are taken to succeed, and `read` to fill its buffer if it can.
pub record Env : Type 0 where
  pub fork_ok : Bool
  pub open_ok : Str → Bool
  pub malloc_holds : Str  -- what a block that `malloc` returns reads as

-- `none` is a file that does not exist.
pub record World : Type 0 where
  pub files : Str → Option Str
  pub out : Str

-- A process goes on, ends by `exit` with a status, or does what C leaves undefined.
pub data Outcome (A : Type 0) : Type 0 where
  ok : A → World → Outcome A
  exited : ℕ → World → Outcome A
  fault : Outcome A

abbrev pub Proc : Type 0 → Type 0
Proc A = World → Outcome A

abbrev pub pure : {A : Type 0} → A → Proc A
pure a w = ok a w

abbrev pub bind : {A B : Type 0} → Outcome A → (A → Proc B) → Outcome B
bind (ok a w) k = k a w
bind (exited s w) k = exited s w
bind fault k = fault

infixl 5 ◌>>=◌ ◌>>◌
abbrev pub ◌>>=◌ : {A B : Type 0} → Proc A → (A → Proc B) → Proc B
◌>>=◌ m k w = bind (m w) k

abbrev pub ◌>>◌ : {B : Type 0} → Proc (Unit {0}) → Proc B → Proc B
m >> n = m >>= λ _. n

abbrev pub exit : {A : Type 0} → ℕ → Proc A
exit status w = exited status w

abbrev pub undefined : {A : Type 0} → Proc A
undefined w = fault

-- A value that C may leave undefined.
abbrev pub defined : {A : Type 0} → Option A → Proc A
defined none = undefined
defined (some a) = pure a

abbrev pub print : Str → Proc (Unit {0})
print s w = ok tt (record w { out = w.out ++ s })

-- The bytes of a file; none for one that does not exist.
abbrev pub content : Option Str → Str
content none = []
content (some s) = s

abbrev pub put_file : Str → Str → (Str → Option Str) → Str → Option Str
put_file name s files other = if same other name then some s else files other

-- `errExit`: the message goes to the error output.
abbrev pub err_exit : {A : Type 0} → Proc A
err_exit = exit 1

-- A `write` to a file that is open for appending.
unfoldable pub append : Str → Str → Proc (Unit {0})
append name s w = ok tt (record w { files = put_file name (content (w.files name) ++ s) w.files })

-- The parent waits for the child, and goes on whatever its status.
abbrev pub wait : Outcome (Unit {0}) → Outcome (Unit {0})
wait (ok a w) = ok tt w
wait (exited s w) = ok tt w
wait fault = fault

module _ (env : Env) where
  -- `open` with O_CREAT: a file that is not there is created. The result is what it holds.
  unfoldable pub open_file : Str → Proc Str
  open_file name w =
      if env.open_ok name
      then ok (content (w.files name))
          (record w { files = put_file name (content (w.files name)) w.files })
      else exited 1 w

  unfoldable pub log_message : Str → Proc (Unit {0})
  unfolding open_file append
  log_message message = do
    old ← open_file (codes "log.txt")
    append (codes "log.txt") message
    append (codes "log.txt") (newline ∷ [])

  unfoldable pub fork : Proc (Unit {0}) → Proc (Unit {0})
  fork child w = if env.fork_ok then wait (child w) else exited 1 w
