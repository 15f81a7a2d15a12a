-- ===== src/Copier/Invariant/Worker.antt =====
-- A step of a worker keeps the invariant.
use system_related_in_c.Base.{
  ℕ, ◌+◌, ◌≤◌, ◌<◌, ◌≡◌, ◌⊎◌, inl, inr, refl, sym, ap, ◌∙◌, subst, Bool-cases, some, List, [], ◌∷◌,
  ◌++◌, arith, true, false, length, get_elem?, set, total, total-set, le-total, add-le-total,
  get_elem?-set_cases, append_assoc, dec_lt,
}
use system_related_in_c.Copier.Buffer.{FileNames, read_task, advance_out}
use system_related_in_c.Copier.Buffer.Ring.{
  Holds, read_task-Holds, advance_out-Holds, nonempty-cons,
}
use system_related_in_c.Copier.Threads.{Shared, WorkerPc, worker_step}
use system_related_in_c.Copier.System.{System}
use system_related_in_c.Copier.Invariant.Defs.{
  worker_sync, manager_sync, in_flight, held, WorkerFresh, ManagerFresh, Busy, Over, Inv,
}
use system_related_in_c.Copier.Invariant.Places.{
  worker-sync, worker-fresh, Effect, Effect-Idle, Idle-next, Idle-of, ManagerFresh-ended,
  ManagerFresh-keep, WorkerFresh-keep, all-taken, quiet, some-eq, takes, worker-Effect,
  worker-active, worker-counted,
}

module _ (files : List FileNames) (s : System) (i : ℕ) (p p' : WorkerPc) (u : Shared)
    (at : get_elem? s.workers i ≡ some p)
    (e : worker_step (length s.workers) s.shared p ≡ some (u, p')) where
  abbrev moved : System
  moved = record s { shared = u; workers = set s.workers i p' }

  counted-keep :
      s.shared.files_copied + total in_flight s.workers ≡ length s.shared.taken
      → u.files_copied + total in_flight moved.workers ≡ length u.taken
  counted-keep h = omega (
    arith,
    h,
    total-set in_flight s.workers i p p' at,
    worker-counted (length s.workers) s.shared p p' e,
  )

  module _ (v : Busy files s) where
    abbrev fresh : WorkerFresh s.shared p
    fresh = v.workers_fresh i p at

    bound : s.shared.buffer_sync + worker_sync p ≤ 1
    bound = omega (arith, v.sync_one, le-total worker_sync s.workers i p at)

    sync-keep : u.buffer_sync + total worker_sync moved.workers + manager_sync s.manager ≡ 1
    sync-keep = omega (
      arith,
      v.sync_one,
      total-set worker_sync s.workers i p p' at,
      worker-sync (length s.workers) s.shared v.live p p' fresh bound e,
    )

    -- Where a worker changes the buffer it holds the mutex, so no other does.
    others-keep :
        (worker_sync p ≡ 1) ⊎ (u.buffer ≡ s.shared.buffer)
        → (j : ℕ) (q : WorkerPc) → get_elem? moved.workers j ≡ some q
        → WorkerFresh u q
    others-keep w j q found = elim (get_elem?-set_cases s.workers i j p' q found) [
      | inl eq ↦ rw eq (worker-fresh (length s.workers) s.shared v.live p p' fresh e)
      | inr old ↦
          WorkerFresh-keep s.shared u q (worker-active (length s.workers) s.shared p e)
            (ground (arith, v.sync_one, add-le-total worker_sync s.workers i j p q old.0 at old.1))
            (v.workers_fresh j q old.1)
    ]

    -- A step that leaves the buffer alone.
    quiet-Busy : u.buffer ≡ s.shared.buffer → u.taken ≡ s.shared.taken → Busy files moved
    quiet-Busy same same' = record {
      live = rw (same, worker-active (length s.workers) s.shared p e) v.live;
      sync_one = sync-keep;
      content = v.content;
      holds = rw same v.holds;
      accounted = rw same' v.accounted;
      manager_fresh =
          ManagerFresh-keep s.shared u s.rest s.manager
            (worker-active (length s.workers) s.shared p e) (inr same) v.manager_fresh;
      workers_fresh = others-keep (inr same);
      counted = counted-keep v.counted;
    }

    -- A step that takes out the oldest file.
    module _ (f : FileNames) (is : p ≡ WorkerPc.advancing f)
        (same : u.buffer ≡ advance_out s.shared.buffer)
        (same' : u.taken ≡ s.shared.taken ++ f ∷ []) where
      knows : (0 < s.shared.buffer.count) × (read_task s.shared.buffer ≡ some f)
      knows = subst (WorkerFresh s.shared) is fresh

      locked : worker_sync p ≡ 1
      locked = ap worker_sync is

      split : (ys : List FileNames) × (v.content ≡ f ∷ ys)
      split =
          let (x, ys, eq) = nonempty-cons v.content (omega (arith, v.holds, knows)) in
          (ys, eq ∙ ap (λ y. y ∷ ys) (some-eq (read_task-Holds v.holds eq) knows.1))

      now-Holds : Holds u.buffer split.0
      now-Holds = rw same (advance_out-Holds v.holds split.1)

      now-accounted : u.taken ++ split.0 ++ held s.manager ++ s.rest ≡ files
      now-accounted =
          ap (λ l. l ++ held s.manager ++ s.rest)
            (ap (λ t. t ++ split.0) same'
              ∙ append_assoc s.shared.taken (f ∷ []) split.0
              ∙ ap (λ c. s.shared.taken ++ c) (sym split.1))
          ∙ v.accounted

      manager-out : manager_sync s.manager ≡ 0
      manager-out = omega (arith, v.sync_one, locked, le-total worker_sync s.workers i p at)

      now-manager : ManagerFresh u s.rest s.manager
      now-manager =
          ManagerFresh-keep s.shared u s.rest s.manager
            (worker-active (length s.workers) s.shared p e) (inl manager-out) v.manager_fresh

      takes-Busy : (u.active ≡ true) ⊎ (0 < u.buffer.count) → Busy files moved
      takes-Busy live = record {
        live = live;
        sync_one = sync-keep;
        content = split.0;
        holds = now-Holds;
        accounted = now-accounted;
        manager_fresh = now-manager;
        workers_fresh = others-keep (inl locked);
        counted = counted-keep v.counted;
      }

      -- The last file: the manager has ended.
      takes-Over : u.active ≡ false → u.buffer.count ≡ 0 → Over files moved
      takes-Over inactive empty = record {
        inactive = inactive;
        empty = empty;
        finished = (ManagerFresh-ended u s.rest s.manager now-manager inactive).0;
        all_taken =
            all-taken u.taken split.0 s.rest files s.manager now-accounted
              (omega (arith, now-Holds, empty))
              (ManagerFresh-ended u s.rest s.manager now-manager inactive);
        workers_idle = λ j q found. Idle-of u q (others-keep (inl locked) j q found) empty;
        counted = counted-keep v.counted;
      }

      takes-Inv : Inv files moved
      takes-Inv = elim (dec_lt 0 u.buffer.count) [
        | yes more ↦ inl (takes-Busy (inr more))
        | no empty ↦ elim (Bool-cases u.active) [
          | inl active ↦ inl (takes-Busy (inl active))
          | inr inactive ↦ inr (takes-Over inactive (omega arith))
        ]
      ]

    Busy-Inv : Inv files moved
    Busy-Inv = by_effect p refl (worker-Effect (length s.workers) s.shared p e)
      where
        by_effect : (q : WorkerPc) → p ≡ q → Effect s.shared u q → Inv files moved
        by_effect q is (quiet same same') = inl (quiet-Busy same same')
        by_effect q is (takes f same same') = takes-Inv f is same same'

  -- Without work, no worker changes the buffer, and none finds work.
  Over-Inv : Over files s → Inv files moved
  Over-Inv v = inr (record {
    inactive = worker-active (length s.workers) s.shared p e ∙ v.inactive;
    empty = ap (λ b. b.count) kept.0 ∙ v.empty;
    finished = v.finished;
    all_taken = kept.1 ∙ v.all_taken;
    workers_idle = λ j q found. elim (get_elem?-set_cases s.workers i j p' q found) [
      | inl eq ↦
          rw eq (Idle-next (length s.workers) s.shared p p' (v.workers_idle i p at) v.empty e)
      | inr old ↦ v.workers_idle j q old.1
    ];
    counted = counted-keep v.counted;
  })
    where
      kept : (u.buffer ≡ s.shared.buffer) × (u.taken ≡ s.shared.taken)
      kept =
          Effect-Idle s.shared u p (worker-Effect (length s.workers) s.shared p e)
            (v.workers_idle i p at)

  pub worker-Inv : Inv files s → Inv files moved
  worker-Inv (inl v) = Busy-Inv v
  worker-Inv (inr v) = Over-Inv v
