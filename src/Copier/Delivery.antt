-- ===== src/Copier/Delivery.antt =====
-- Each file that the manager finds is copied once, whatever the order of the threads' steps.
use system_related_in_c.Base.{
  ℕ, ◌+◌, ◌≤◌, ◌<◌, ◌≡◌, ◌⊎◌, refl, inl, inr, sym, ◌∙◌, ap, Bool, true, false, some, List, [], ◌∷◌,
  ◌++◌, get_elem?, total, length, arith, All, append_assoc, append-nil,
}
use system_related_in_c.Copier.Buffer.{FileNames, read_task}
use system_related_in_c.Copier.Buffer.Ring.{read_task-Holds, nonempty-cons}
use system_related_in_c.Copier.Threads.{Shared, WorkerPc, ManagerPc}
use system_related_in_c.Copier.System.{System, Reach}
use system_related_in_c.Copier.Invariant.{
  worker_sync, manager_sync, in_flight, held, WorkerFresh, Inv, Reach-Inv,
}

-- The places that a worker only reaches without work: the two unlocks of the empty branch, and the
-- barrier at the end.
abbrev pub is_late : WorkerPc → Bool
is_late WorkerPc.unlock_empty = true
is_late WorkerPc.unlock_again = true
is_late WorkerPc.leaving = true
is_late WorkerPc.at_end = true
is_late WorkerPc.done = true
is_late _ = false

late-fresh : (s : Shared) (p : WorkerPc) → is_late p ≡ true → ¬ WorkerFresh s p
late-fresh s WorkerPc.starting late f = absurd (ground arith)
late-fresh s p late f = ground arith

first-done :
    (ws : List WorkerPc)
    → 0 < length ws
    → All (λ p. p ≡ WorkerPc.done) ws
    → get_elem? ws 0 ≡ some WorkerPc.done
first-done [] some_workers dones = absurd (omega arith)
first-done (p ∷ ws) some_workers dones = ap (λ q. some q) dones.0

total-done : (ws : List WorkerPc) → All (λ p. p ≡ WorkerPc.done) ws → total in_flight ws ≡ 0
total-done [] dones = refl
total-done (p ∷ ws) dones = omega (arith, ap in_flight dones.0, total-done ws dones.1)

counted-Inv :
    {files : List FileNames} {s : System}
    → Inv files s
    → s.shared.files_copied + total in_flight s.workers ≡ length s.shared.taken
counted-Inv (inl v) = v.counted
counted-Inv (inr v) = v.counted

module _ {tasks : List FileNames} {n : ℕ} {files : List FileNames} {s : System}
    (room : 0 < length tasks) (r : Reach tasks n files s) where
  -- With room for one file or more in the buffer, in every state that the manager and any number
  -- of workers reach: the files taken out of the buffer so far are the first of those that the
  -- manager finds, in its order, and each once.
  pub taken_in_order : (ys : List FileNames) × (s.shared.taken ++ ys ≡ files)
  taken_in_order = elim (Reach-Inv room r) [
    | inl v ↦ (
      v.content ++ (held s.manager ++ s.rest),
      sym (
            append_assoc (s.shared.taken ++ v.content) (held s.manager) s.rest
            ∙ append_assoc s.shared.taken v.content (held s.manager ++ s.rest))
          ∙ v.accounted,
    )
    | inr v ↦ ([], append-nil s.shared.taken ∙ v.all_taken)
  ]

  -- With room for one file or more in the buffer, in every state that the manager and any number
  -- of workers reach: the buffer holds no more files than it has room for.
  pub buffer_bounded : s.shared.buffer.count ≤ s.shared.buffer.buff_size
  buffer_bounded = elim (Reach-Inv room r) [
    | inl v ↦ omega (arith, v.holds)
    | inr v ↦ omega (arith, v.empty)
  ]

  -- With room for one file or more in the buffer, in every state that the manager and any number
  -- of workers reach: while the flag is set or the buffer holds a file, at most one thread is
  -- between a lock of buffer_sync and its unlock.
  pub sync_exclusive :
      (s.shared.active ≡ true) ⊎ (0 < s.shared.buffer.count)
      → total worker_sync s.workers + manager_sync s.manager ≤ 1
  sync_exclusive work = elim (Reach-Inv room r) [
    | inl v ↦ omega (arith, v.sync_one)
    | inr v ↦ absurd (ground (arith, v.empty, v.inactive))
  ]

  -- With room for one file or more in the buffer, in every state that the manager and any number
  -- of workers reach: a worker that is about to read a task finds one, and it is the first of the
  -- manager's files that was not taken out before.
  pub reads_next_file :
      (i : ℕ)
      → get_elem? s.workers i ≡ some WorkerPc.reading
      → (f : FileNames) × (ys : List FileNames) × (read_task s.shared.buffer ≡ some f)
        × (s.shared.taken ++ f ∷ ys ≡ files)
  reads_next_file i at = elim (Reach-Inv room r) [
    | inl v ↦
        let (f, ys, eq) =
          nonempty-cons v.content (omega (arith, v.holds, v.workers_fresh i WorkerPc.reading at)) in
        (
          f,
          ys ++ (held s.manager ++ s.rest),
          read_task-Holds v.holds eq,
          sym (
                append_assoc (s.shared.taken ++ v.content) (held s.manager) s.rest
                ∙ append_assoc s.shared.taken v.content (held s.manager ++ s.rest)
                ∙ ap (λ l. s.shared.taken ++ (l ++ (held s.manager ++ s.rest))) eq)
              ∙ v.accounted,
        )
    | inr v ↦ absurd (v.workers_idle i WorkerPc.reading at)
  ]

  -- With room for one file or more in the buffer, in every state that the manager and any number
  -- of workers reach: once a worker is at an unlock of the empty branch or behind the loop, all
  -- files have been taken out, the manager has ended, and the buffer is empty.
  pub late_without_work :
      (i : ℕ) (p : WorkerPc)
      → get_elem? s.workers i ≡ some p
      → is_late p ≡ true
      → (s.shared.taken ≡ files) × (s.manager ≡ ManagerPc.ended) × (s.shared.buffer.count ≡ 0)
  late_without_work i p at late = elim (Reach-Inv room r) [
    | inl v ↦ absurd (late-fresh s.shared p late (v.workers_fresh i p at))
    | inr v ↦ (v.all_taken, v.finished, v.empty)
  ]

  -- With room for one file or more in the buffer, in every state that the manager and any number
  -- of workers reach: if there are workers and all are through, all files have been taken out, in
  -- the manager's order, and files_copied is their number.
  pub each_file_copied :
      0 < length s.workers
      → All (λ p. p ≡ WorkerPc.done) s.workers
      → (s.shared.taken ≡ files) × (s.shared.files_copied ≡ length files)
  each_file_copied some_workers dones =
      let at = first-done s.workers some_workers dones in
      let over = late_without_work 0 WorkerPc.done at refl in
      (
        over.0,
        omega (arith, counted-Inv (Reach-Inv room r), total-done s.workers dones, ap length over.0),
      )
