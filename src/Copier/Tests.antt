-- ===== src/Copier/Tests.antt =====
-- Runs of the copier with two workers and a buffer of two, and the theorems at states that they reach.
use system_related_in_c.Base.{
  get_elem?, ℕ, ◌+◌, ◌≤◌, ◌≡◌, refl, inl, some, List, [], ◌∷◌, ◌++◌, total, arith,
}
use system_related_in_c.Copier.Buffer.{FileNames, read_task}
use system_related_in_c.Copier.Threads.{WorkerPc, ManagerPc}
use system_related_in_c.Copier.Invariant.{worker_sync, manager_sync}
use system_related_in_c.Copier.Delivery.{
  taken_in_order, buffer_bounded, sync_exclusive, reads_next_file, late_without_work,
  each_file_copied,
}
use system_related_in_c.Copier.Schedule.{Reached, run, rounds}

abbrev file : ℕ → FileNames
file k = record { source_destination = k ∷ []; target_destination = k ∷ [] }

abbrev slots : List FileNames
slots = file 0 ∷ file 0 ∷ []

abbrev files : List FileNames
files = file 1 ∷ file 2 ∷ file 3 ∷ []

abbrev early : Reached slots 2 files
early = run slots 2 files (rounds 8 [])

abbrev whole_run : Reached slots 2 files
whole_run = run slots 2 files (rounds 60 [])

whole_run_test : whole_run.last.workers ≡ WorkerPc.done ∷ WorkerPc.done ∷ []
unfolding run
whole_run_test = refl

early_test : early.last.workers ≡ WorkerPc.reading ∷ WorkerPc.locking ∷ []
unfolding run
early_test = refl

taken_in_order_test : (ys : List FileNames) × (early.last.shared.taken ++ ys ≡ files)
taken_in_order_test = taken_in_order (omega arith) early.reach

buffer_bounded_test : early.last.shared.buffer.count ≤ early.last.shared.buffer.buff_size
buffer_bounded_test = buffer_bounded (omega arith) early.reach

sync_exclusive_example : total worker_sync early.last.workers + manager_sync early.last.manager ≤ 1
unfolding run
sync_exclusive_example = sync_exclusive (omega arith) early.reach (inl refl)

early-reading : get_elem? early.last.workers 0 ≡ some WorkerPc.reading
unfolding run
early-reading = refl

reads_next_file_example :
    (f : FileNames) × (ys : List FileNames) × (read_task early.last.shared.buffer ≡ some f)
    × (early.last.shared.taken ++ f ∷ ys ≡ files)
reads_next_file_example = reads_next_file (omega arith) early.reach 0 early-reading

late_without_work_example :
    (whole_run.last.shared.taken ≡ files)
    × (whole_run.last.manager ≡ ManagerPc.ended)
    × (whole_run.last.shared.buffer.count ≡ 0)
unfolding run
late_without_work_example =
    late_without_work (omega arith) whole_run.reach 1 WorkerPc.done refl refl

each_file_copied_example :
    (whole_run.last.shared.taken ≡ files) × (whole_run.last.shared.files_copied ≡ 3)
unfolding run
each_file_copied_example =
    each_file_copied (omega arith) whole_run.reach (omega arith) (refl, (refl, tt))
