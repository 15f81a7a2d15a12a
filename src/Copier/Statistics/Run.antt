-- ===== src/Copier/Statistics/Run.antt =====
-- The statistics at the end of a run of the manager and the workers.
use system_related_in_c.Base.{
  ℕ, zero, suc, ◌+◌, ◌<◌, ◌≡◌, refl, ap, some, List, [], ◌∷◌, arith, length, total, All, total-set,
  total-append,
}
use system_related_in_c.Copier.Buffer.{FileNames}
use system_related_in_c.Copier.Threads.{Shared, WorkerPc, ManagerPc, worker_step, manager_step}
use system_related_in_c.Copier.System.{System, Step, Reach, repeat}
use system_related_in_c.Copier.Delivery.{each_file_copied}
use system_related_in_c.Copier.Statistics.{Kind, FileStat, count_files, no_files}
use system_related_in_c.Copier.Statistics.Totals.{Printed, statistics_of_totals}

module _ (w : FileNames → ℕ) where
  -- The weight of the file that a worker has taken out and not yet counted.
  abbrev carried : WorkerPc → ℕ
  carried (WorkerPc.unlocking f) = w f
  carried (WorkerPc.copying f) = w f
  carried (WorkerPc.counting f) = w f
  carried _ = 0

  worker-carried :
      (n : ℕ) (s : Shared) {s' : Shared} (p p' : WorkerPc)
      → worker_step n s p ≡ some (s', p')
      → total w s'.counted + carried p' + total w s.taken
        ≡ total w s.counted + carried p + total w s'.taken
  unfolding worker_step
  worker-carried n s (WorkerPc.advancing f) p' e = ground (arith, total-append w s.taken (f ∷ []))
  worker-carried n s (WorkerPc.counting f) p' e = ground (arith, total-append w s.counted (f ∷ []))
  worker-carried n s WorkerPc.starting p' e = ground arith
  worker-carried n s p p' e = ground arith

  manager-carried :
      (s : Shared) {s' : Shared} (rest : List FileNames) (m : ManagerPc) {rest' : List FileNames}
      {m' : ManagerPc}
      → manager_step s rest m ≡ some (s', rest', m')
      → (s'.taken ≡ s.taken) × (s'.counted ≡ s.counted)
  unfolding manager_step
  manager-carried s [] ManagerPc.next_file e = ground arith
  manager-carried s (f ∷ rest) ManagerPc.next_file e = ground arith
  manager-carried s rest m e = ground arith

  abbrev Balanced : System → Type 0
  Balanced s = total w s.shared.counted + total carried s.workers ≡ total w s.shared.taken

  Step-Balanced : {s t : System} → Step s t → Balanced s → Balanced t
  Step-Balanced {s} (Step.worker i {p} {p'} at e) h = omega (
    arith,
    h,
    total-set carried s.workers i p p' at,
    worker-carried (length s.workers) s.shared p p' e,
  )
  Step-Balanced {s} (Step.manager {u} e) h =
      let (taken, counted) = manager-carried s.shared s.rest s.manager e in
      omega (arith, h, ap (total w) taken, ap (total w) counted)

  starts-Balanced : (n : ℕ) → total carried (repeat n) ≡ 0
  starts-Balanced zero = refl
  starts-Balanced (suc n) = omega (arith, starts-Balanced n)

  Reach-Balanced :
      {tasks : List FileNames} {n : ℕ} {files : List FileNames} {s : System}
      → Reach tasks n files s
      → Balanced s
  Reach-Balanced {n} Reach.here = omega (arith, starts-Balanced n)
  Reach-Balanced (Reach.next r step) = Step-Balanced step (Reach-Balanced r)

  carried-done : (ws : List WorkerPc) → All (λ p. p ≡ WorkerPc.done) ws → total carried ws ≡ 0
  carried-done [] dones = refl
  carried-done (p ∷ ws) dones = omega (arith, ap carried dones.0, carried-done ws dones.1)

-- With room for one file or more in the buffer, in every state that the manager and any number of
-- workers reach: if there are workers, all are through, and each `stat` of a worker succeeds,
-- then, in whatever order the workers have counted, the number of files copied, of regular files
-- and of fifo files is that among the files that the manager finds, the number of directories is
-- as it was, and the bytes copied are the sum of the sizes, of which an int keeps the last 32
-- bits.
pub statistics-Printed :
    {tasks : List FileNames} {n : ℕ} {files : List FileNames} {s : System} (unset : Kind)
    (st : FileNames → FileStat) (directories : ℕ)
    → 0 < length tasks
    → Reach tasks n files s
    → 0 < length s.workers
    → All (λ p. p ≡ WorkerPc.done) s.workers
    → Printed st files directories
        (count_files unset (λ f. some (st f)) s.shared.counted (no_files directories))
statistics-Printed {files} {s} unset st directories room r some_workers dones =
    statistics_of_totals unset st files s.shared.counted directories (λ w. omega (
      arith,
      Reach-Balanced w r,
      carried-done w s.workers dones,
      ap (total w) (each_file_copied room r some_workers dones).0,
    ))
