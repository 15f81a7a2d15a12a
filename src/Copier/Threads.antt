-- ===== src/Copier/Threads.antt =====
-- `worker` and `manager`, one access to what they share at a time. A thread in `pthread_cond_wait`
-- may wake at any time, as POSIX allows, so signals and the broadcast have no effect of their own.
-- An unlock sets the mutex free, whoever has locked it: POSIX leaves the second one of a worker
-- undefined, and this is what it does where it does anything.
use system_related_in_c.Base.{
  ℕ, zero, suc, ◌+◌, ◌*◌, Bool, false, Option, none, some, List, [], ◌∷◌, ◌++◌, ltb, leb, ◌==◌,
  if◌then◌else◌,
}
use system_related_in_c.Copier.Buffer.{
  FileNames, Buffer, store_task, advance_in, read_task, advance_out,
}

pub record Shared : Type 0 where
  pub buffer : Buffer
  pub buffer_sync : ℕ  -- 1 when the mutex is free
  pub active : Bool
  pub arrived : ℕ  -- at worker_barrier, in both phases
  pub files_copied : ℕ
  pub counted : List FileNames  -- whose statistics are counted, in that order, which no code reads
  pub taken : List FileNames  -- what workers have taken out so far, which no code reads

-- Where a worker stands. A path has a slash, so `src[0]` tells a task from none.
pub data WorkerPc : Type 0 where
  starting : WorkerPc  -- before the barrier
  at_gate : WorkerPc  -- in it
  head_active : WorkerPc  -- before `active` at the head of the loop
  head_count : WorkerPc  -- before `buffer.count > 0` there
  locking : WorkerPc  -- before pthread_mutex_lock
  check_count : WorkerPc  -- before `buffer.count == 0`
  check_active : WorkerPc  -- before the `active` behind it
  sleeping : WorkerPc  -- in pthread_cond_wait
  test : WorkerPc  -- before `if (buffer.count > 0)`
  reading : WorkerPc  -- before the two calls of strcpy
  advancing : FileNames → WorkerPc  -- before `out` and `count` change
  unlocking : FileNames → WorkerPc
  copying : FileNames → WorkerPc  -- before fileCopy
  counting : FileNames → WorkerPc  -- before the statistics, which their own mutex guards
  unlock_empty : WorkerPc  -- before the unlock of the empty branch
  unlock_again : WorkerPc  -- before the unlock behind it
  leaving : WorkerPc  -- before the barrier at the end
  at_end : WorkerPc
  done : WorkerPc

abbrev pub lock : Shared → Option Shared
lock s = elim s.buffer_sync [ zero ↦ none | suc n ↦ some (record s { buffer_sync = n }) ]

abbrev pub unlock : Shared → Shared
unlock s = record s { buffer_sync = 1 }

abbrev pub after : Option Shared → WorkerPc → Option (Shared × WorkerPc)
after none p = none
after (some s) p = some (s, p)

abbrev pub arrive : Shared → Shared
arrive s = record s { arrived = s.arrived + 1 }

-- A step of a worker among `n`, if it does not wait.
unfoldable pub worker_step : ℕ → Shared → WorkerPc → Option (Shared × WorkerPc)
worker_step n s starting = some (arrive s, at_gate)
worker_step n s at_gate = if leb n s.arrived then some (s, head_active) else none
worker_step n s head_active = some (s, (if s.active then locking else head_count))
worker_step n s head_count = some (s, (if ltb 0 s.buffer.count then locking else leaving))
worker_step n s locking = after (lock s) check_count
worker_step n s check_count = some (s, (if s.buffer.count == 0 then check_active else test))
worker_step n s check_active = if s.active then some (unlock s, sleeping) else some (s, test)
worker_step n s sleeping = after (lock s) check_count
worker_step n s test = some (s, (if ltb 0 s.buffer.count then reading else unlock_empty))
worker_step n s reading = elim (read_task s.buffer) [ none ↦ none | some f ↦ some (s, advancing f) ]
worker_step n s (advancing f) =
    some (record s { buffer = advance_out s.buffer; taken = s.taken ++ f ∷ [] }, unlocking f)
worker_step n s (unlocking f) = some (unlock s, copying f)
worker_step n s (copying f) = some (s, counting f)
worker_step n s (counting f) =
    some
      (record s { files_copied = s.files_copied + 1; counted = s.counted ++ f ∷ [] }, head_active)
worker_step n s unlock_empty = some (unlock s, unlock_again)
worker_step n s unlock_again = some (unlock s, head_active)
worker_step n s leaving = some (arrive s, at_end)
worker_step n s at_end = if leb (2 * n) s.arrived then some (s, done) else none
worker_step n s done = none

-- Where the manager stands, with the file that it is about to put into the buffer.
pub data ManagerPc : Type 0 where
  next_file : ManagerPc
  locking : FileNames → ManagerPc
  checking : FileNames → ManagerPc  -- before `buffer.count == buffer.buffSize`
  full : FileNames → ManagerPc  -- before the `active` behind it
  sleeping : FileNames → ManagerPc  -- in pthread_cond_wait
  storing : FileNames → ManagerPc  -- before the two calls of strcpy
  advancing : FileNames → ManagerPc  -- before `in` and `count` change
  unlocking : ManagerPc
  ended : ManagerPc

abbrev pub then_manager :
    Option Shared → List FileNames → ManagerPc → Option (Shared × List FileNames × ManagerPc)
then_manager none rest m = none
then_manager (some s) rest m = some (s, rest, m)

-- A step of the manager, with the files that it has still to find.
unfoldable pub manager_step :
    Shared → List FileNames → ManagerPc → Option (Shared × List FileNames × ManagerPc)
manager_step s [] next_file = some (record s { active = false }, [], ended)
manager_step s (f ∷ rest) next_file = some (s, rest, locking f)
manager_step s rest (locking f) = then_manager (lock s) rest (checking f)
manager_step s rest (checking f) =
    some (s, rest, (if s.buffer.count == s.buffer.buff_size then full f else storing f))
manager_step s rest (full f) =
    if s.active then some (unlock s, rest, sleeping f) else some (s, rest, storing f)
manager_step s rest (sleeping f) = then_manager (lock s) rest (checking f)
manager_step s rest (storing f) =
    some (record s { buffer = store_task f s.buffer }, rest, advancing f)
manager_step s rest (advancing f) =
    some (record s { buffer = advance_in s.buffer }, rest, unlocking)
manager_step s rest unlocking = some (unlock s, rest, next_file)
manager_step s rest ended = none
