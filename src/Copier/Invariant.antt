-- ===== src/Copier/Invariant.antt =====
-- The invariant of the copier: true at the start, and kept by every step of every thread.
mod Defs
mod Places
mod Worker
mod Filling
mod Manager
pub use Defs.{worker_sync, manager_sync, in_flight, held, WorkerFresh, Busy, Idle, Over, Inv}
use Worker.{worker-Inv}
use Manager.{manager-Inv}
use system_related_in_c.Base.{
  ℕ, zero, suc, ◌≡◌, ◌<◌, refl, inl, inr, ◌+◌, some, List, [], ◌∷◌, length, get_elem?, total, arith,
  sym, ◌∙◌, ap,
}
use system_related_in_c.Copier.Buffer.{FileNames}
use system_related_in_c.Copier.Buffer.Ring.{Holds, empty-Holds}
use system_related_in_c.Copier.Threads.{WorkerPc, Shared}
use system_related_in_c.Copier.System.{
  System, repeat, init, Step, worker, manager, Reach, here, next,
}

total-repeat : (w : WorkerPc → ℕ) (n : ℕ) → w WorkerPc.starting ≡ 0 → total w (repeat n) ≡ 0
total-repeat w zero e = refl
total-repeat w (suc n) e = omega (arith, e, total-repeat w n e)

starting-repeat : (n i : ℕ) (p : WorkerPc) → get_elem? (repeat n) i ≡ some p → p ≡ WorkerPc.starting
starting-repeat zero i p at = cc
starting-repeat (suc n) zero p at = cc
starting-repeat (suc n) (suc i) p at = starting-repeat n i p at

WorkerFresh-starting : (s : Shared) (p : WorkerPc) → p ≡ WorkerPc.starting → WorkerFresh s p
WorkerFresh-starting s p e = rw e tt

pub init-Inv :
    (tasks : List FileNames) (n : ℕ) (files : List FileNames)
    → 0 < length tasks
    → Inv files (init tasks n files)
init-Inv tasks n files room = inl (record {
  live = inl refl;
  sync_one = omega (arith, total-repeat worker_sync n refl);
  content = [];
  holds = empty-Holds tasks room;
  accounted = refl;
  manager_fresh = refl;
  workers_fresh =
      λ i p at. WorkerFresh-starting (init tasks n files).shared p (starting-repeat n i p at);
  counted = omega (arith, total-repeat in_flight n refl);
})

pub Step-Inv : {files : List FileNames} {s t : System} → Step s t → Inv files s → Inv files t
Step-Inv {files} {s} (worker i {p} {p'} {u} at e) v = worker-Inv files s i p p' u at e v
Step-Inv {files} {s} (manager {u} {rest} {m} e) v = manager-Inv files s m u rest e v

pub Reach-Inv :
    {tasks : List FileNames} {n : ℕ} {files : List FileNames} {s : System}
    → 0 < length tasks
    → Reach tasks n files s
    → Inv files s
Reach-Inv {tasks} {n} {files} room here = init-Inv tasks n files room
Reach-Inv room (next r st) = Step-Inv st (Reach-Inv room r)
