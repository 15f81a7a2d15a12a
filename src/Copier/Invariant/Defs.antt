-- ===== src/Copier/Invariant/Defs.antt =====
-- Who has locked `buffer_sync`, and where each file is. As long as there may be work (`Busy`), the
-- mutex guards the buffer. Once the manager has ended and the buffer is empty (`Over`), workers may
-- unlock it twice, and nothing depends on it any more.
use system_related_in_c.Base.{
  ℕ, ◌+◌, ◌<◌, ◌≡◌, ◌⊎◌, some, List, [], ◌∷◌, ◌++◌, true, false, length, get_elem?, total,
}
use system_related_in_c.Copier.Buffer.{FileNames, read_task}
use system_related_in_c.Copier.Buffer.Ring.{Holds}
use system_related_in_c.Copier.Threads.{Shared, WorkerPc, ManagerPc}
use system_related_in_c.Copier.System.{System}

-- 1 where the worker has locked the mutex.
abbrev pub worker_sync : WorkerPc → ℕ
worker_sync WorkerPc.check_count = 1
worker_sync WorkerPc.check_active = 1
worker_sync WorkerPc.test = 1
worker_sync WorkerPc.reading = 1
worker_sync (WorkerPc.advancing _) = 1
worker_sync (WorkerPc.unlocking _) = 1
worker_sync _ = 0

abbrev pub manager_sync : ManagerPc → ℕ
manager_sync (ManagerPc.checking _) = 1
manager_sync (ManagerPc.full _) = 1
manager_sync (ManagerPc.storing _) = 1
manager_sync (ManagerPc.advancing _) = 1
manager_sync ManagerPc.unlocking = 1
manager_sync _ = 0

-- 1 where the worker has taken out a file that is not counted yet.
abbrev pub in_flight : WorkerPc → ℕ
in_flight (WorkerPc.unlocking _) = 1
in_flight (WorkerPc.copying _) = 1
in_flight (WorkerPc.counting _) = 1
in_flight _ = 0

-- The file that the manager has found and not put in yet.
abbrev pub held : ManagerPc → List FileNames
held (ManagerPc.locking f) = f ∷ []
held (ManagerPc.checking f) = f ∷ []
held (ManagerPc.full f) = f ∷ []
held (ManagerPc.sleeping f) = f ∷ []
held (ManagerPc.storing f) = f ∷ []
held (ManagerPc.advancing f) = f ∷ []
held _ = []

-- What a worker's place says of what is shared while there may be work.
abbrev pub WorkerFresh : Shared → WorkerPc → Type 0
WorkerFresh s WorkerPc.head_count = s.active ≡ false
WorkerFresh s WorkerPc.check_active = s.buffer.count ≡ 0
WorkerFresh s WorkerPc.test = 0 < s.buffer.count
WorkerFresh s WorkerPc.reading = 0 < s.buffer.count
WorkerFresh s (WorkerPc.advancing f) = (0 < s.buffer.count) × (read_task s.buffer ≡ some f)
WorkerFresh s WorkerPc.unlock_empty = ⊥
WorkerFresh s WorkerPc.unlock_again = ⊥
WorkerFresh s WorkerPc.leaving = ⊥
WorkerFresh s WorkerPc.at_end = ⊥
WorkerFresh s WorkerPc.done = ⊥
WorkerFresh s _ = Unit

abbrev pub ManagerFresh : Shared → List FileNames → ManagerPc → Type 0
ManagerFresh s rest (ManagerPc.full f) = (s.active ≡ true) × (s.buffer.count ≡ s.buffer.buff_size)
ManagerFresh s rest (ManagerPc.storing f) =
    (s.active ≡ true) × (s.buffer.count < s.buffer.buff_size)
ManagerFresh s rest (ManagerPc.advancing f) =
    (s.active ≡ true)
    × (s.buffer.count < s.buffer.buff_size)
    × (get_elem? s.buffer.tasks s.buffer.in_index ≡ some f)
ManagerFresh s rest ManagerPc.ended = (s.active ≡ false) × (rest ≡ [])
ManagerFresh s rest _ = s.active ≡ true

-- There may be work.
pub record Busy (files : List FileNames) (s : System) : Type 0 where
  pub live : (s.shared.active ≡ true) ⊎ (0 < s.shared.buffer.count)
  pub sync_one : s.shared.buffer_sync + total worker_sync s.workers + manager_sync s.manager ≡ 1
  pub content : List FileNames
  pub holds : Holds s.shared.buffer content
  pub accounted : s.shared.taken ++ content ++ held s.manager ++ s.rest ≡ files
  pub manager_fresh : ManagerFresh s.shared s.rest s.manager
  pub workers_fresh :
      (i : ℕ) (p : WorkerPc) → get_elem? s.workers i ≡ some p → WorkerFresh s.shared p
  pub counted : s.shared.files_copied + total in_flight s.workers ≡ length s.shared.taken

-- What is no place for a worker without work.
abbrev pub Idle : WorkerPc → Type 0
Idle WorkerPc.reading = ⊥
Idle (WorkerPc.advancing _) = ⊥
Idle _ = Unit

-- There is no work left.
pub record Over (files : List FileNames) (s : System) : Type 0 where
  pub inactive : s.shared.active ≡ false
  pub empty : s.shared.buffer.count ≡ 0
  pub finished : s.manager ≡ ManagerPc.ended
  pub all_taken : s.shared.taken ≡ files
  pub workers_idle : (i : ℕ) (p : WorkerPc) → get_elem? s.workers i ≡ some p → Idle p
  pub counted : s.shared.files_copied + total in_flight s.workers ≡ length s.shared.taken

abbrev pub Inv : List FileNames → System → Type 0
Inv files s = Busy files s ⊎ Over files s
