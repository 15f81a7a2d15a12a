-- ===== src/Copier/System.antt =====
-- The manager and the workers that `main` creates, interleaved in any order.
use system_related_in_c.Base.{ℕ, zero, suc, ◌≡◌, true, some, List, [], ◌∷◌, length, get_elem?, set}
use system_related_in_c.Copier.Buffer.{FileNames}
use system_related_in_c.Copier.Threads.{Shared, WorkerPc, ManagerPc, worker_step, manager_step}

pub record System : Type 0 where
  pub shared : Shared
  pub workers : List WorkerPc
  pub manager : ManagerPc
  pub rest : List FileNames

abbrev pub repeat : ℕ → List WorkerPc
repeat zero = []
repeat (suc n) = WorkerPc.starting ∷ repeat n

-- `main` sets the buffer up: `tasks` is what the new array holds, and `files` what the manager is
-- going to find.
abbrev pub init : List FileNames → ℕ → List FileNames → System
init tasks num_workers files = record {
  shared = record {
    buffer = record {
      tasks = tasks;
      in_index = 0;
      out_index = 0;
      count = 0;
      buff_size = length tasks;
    };
    buffer_sync = 1;
    active = true;
    arrived = 0;
    files_copied = 0;
    counted = [];
    taken = [];
  };
  workers = repeat num_workers;
  manager = ManagerPc.next_file;
  rest = files;
}

-- One thread makes a step.
pub data Step (s : System) : System → Type 0 where
  worker :
      (i : ℕ) {p p' : WorkerPc} {u : Shared}
      → get_elem? s.workers i ≡ some p
      → worker_step (length s.workers) s.shared p ≡ some (u, p')
      → Step s (record s { shared = u; workers = set s.workers i p' })
  manager :
      {u : Shared} {rest : List FileNames} {m : ManagerPc}
      → manager_step s.shared s.rest s.manager ≡ some (u, rest, m)
      → Step s (record s { shared = u; manager = m; rest = rest })

pub data Reach (tasks : List FileNames) (n : ℕ) (files : List FileNames) : System → Type 0 where
  here : Reach tasks n files (init tasks n files)
  next : {s t : System} → Reach tasks n files s → Step s t → Reach tasks n files t
