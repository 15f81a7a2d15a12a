-- ===== src/Copier/Invariant/Manager.antt =====
-- A step of the manager keeps the invariant.
use system_related_in_c.Base.{
  ℕ, ◌+◌, ◌<◌, ◌≡◌, ◌⊎◌, inl, inr, refl, sym, ap, ◌∙◌, subst, some, List, [], ◌∷◌, ◌++◌, arith,
  true, false, length, get_elem?, total, le-total, append_assoc, dec_lt,
}
use system_related_in_c.Copier.Buffer.{FileNames, store_task, advance_in}
use system_related_in_c.Copier.Buffer.Ring.{store_task-Holds, store_task-found, advance_in-Holds}
use system_related_in_c.Copier.Threads.{Shared, WorkerPc, ManagerPc, manager_step}
use system_related_in_c.Copier.System.{System}
use system_related_in_c.Copier.Invariant.Defs.{
  worker_sync, manager_sync, in_flight, held, WorkerFresh, ManagerFresh, Busy, Over, Inv,
}
use system_related_in_c.Copier.Invariant.Places.{WorkerFresh-keep, Idle-of, all-taken}
use system_related_in_c.Copier.Invariant.Filling.{
  Change, WorkerFresh-clear, advances, closes, manager-Change, manager-counts, manager-sync,
  manager_step-ended, quiet, regroup, stores,
}

module _ (files : List FileNames) (s : System) (m' : ManagerPc) (u : Shared)
    (rest' : List FileNames)
    (e : manager_step s.shared s.rest s.manager ≡ some (u, rest', m')) where
  abbrev moved : System
  moved = record s { shared = u; manager = m'; rest = rest' }

  counts : (u.taken ≡ s.shared.taken) × (u.files_copied ≡ s.shared.files_copied)
  counts = manager-counts s.shared s.rest s.manager e

  counted-keep :
      s.shared.files_copied + total in_flight s.workers ≡ length s.shared.taken
      → u.files_copied + total in_flight s.workers ≡ length u.taken
  counted-keep h = rw (counts.0, counts.1) h

  module _ (v : Busy files s) where
    change : Change s.shared u s.rest rest' s.manager m'
    change =
        manager-Change s.shared s.rest rest' s.manager m' (omega (arith, v.holds)) v.manager_fresh e

    sync-keep : u.buffer_sync + total worker_sync s.workers + manager_sync m' ≡ 1
    sync-keep = omega (
      arith,
      v.sync_one,
      manager-sync s.shared s.rest rest' s.manager m' (omega (arith, v.sync_one)) e,
    )

    -- Where the manager changes the buffer it holds the mutex, so no worker does.
    workers-keep :
        u.active ≡ s.shared.active
        → (manager_sync s.manager ≡ 1) ⊎ (u.buffer ≡ s.shared.buffer)
        → (j : ℕ) (q : WorkerPc) → get_elem? s.workers j ≡ some q
        → WorkerFresh u q
    workers-keep same w j q found =
        WorkerFresh-keep s.shared u q same
          (ground (arith, v.sync_one, le-total worker_sync s.workers j q found))
          (v.workers_fresh j q found)

    -- What is accounted for, with the last two lists together.
    accounted-keep :
        (ys : List FileNames)
        → ys ++ (held m' ++ rest') ≡ v.content ++ (held s.manager ++ s.rest)
        → u.taken ++ ys ++ held m' ++ rest' ≡ files
    accounted-keep ys eq =
        regroup u.taken ys (held m') rest'
        ∙ ap (λ l. u.taken ++ l) eq
        ∙ ap (λ t. t ++ (v.content ++ (held s.manager ++ s.rest))) counts.0
        ∙ sym (regroup s.shared.taken v.content (held s.manager) s.rest)
        ∙ v.accounted

    quiet-Busy :
        u.buffer ≡ s.shared.buffer
        → u.active ≡ s.shared.active
        → held m' ++ rest' ≡ held s.manager ++ s.rest
        → ManagerFresh u rest' m'
        → Busy files moved
    quiet-Busy same same' eq fresh = record {
      live = rw (same, same') v.live;
      sync_one = sync-keep;
      content = v.content;
      holds = rw same v.holds;
      accounted = accounted-keep v.content (ap (λ l. v.content ++ l) eq);
      manager_fresh = fresh;
      workers_fresh = workers-keep same' (inr same);
      counted = counted-keep v.counted;
    }

    module _ (f : FileNames) (same' : u.active ≡ s.shared.active) (eq : rest' ≡ s.rest) where
      stores-Busy :
          s.manager ≡ ManagerPc.storing f
          → m' ≡ ManagerPc.advancing f
          → u.buffer ≡ store_task f s.shared.buffer
          → Busy files moved
      stores-Busy is is' same = record {
        live = rw same' (inl knows.0);
        sync_one = sync-keep;
        content = v.content;
        holds = rw same (store_task-Holds v.holds f free);
        accounted = accounted-keep v.content (ap (λ l. v.content ++ l) (rw (is, is', eq)));
        manager_fresh =
            subst (ManagerFresh u rest') (sym is')
              (same' ∙ knows.0, rw same knows.1, rw same (store_task-found v.holds f free));
        workers_fresh = workers-keep same' (inl (ap manager_sync is));
        counted = counted-keep v.counted;
      }
        where
          knows : (s.shared.active ≡ true) × (s.shared.buffer.count < s.shared.buffer.buff_size)
          knows = subst (ManagerFresh s.shared s.rest) is v.manager_fresh

          free : length v.content < s.shared.buffer.buff_size
          free = omega (arith, knows, v.holds)

      advances-Busy :
          s.manager ≡ ManagerPc.advancing f
          → m' ≡ ManagerPc.unlocking
          → u.buffer ≡ advance_in s.shared.buffer
          → Busy files moved
      advances-Busy is is' same = record {
        live = rw same' (inl knows.0);
        sync_one = sync-keep;
        content = v.content ++ f ∷ [];
        holds = rw same (advance_in-Holds v.holds f free knows.2);
        accounted = accounted-keep (v.content ++ f ∷ []) (rw (is, is', eq, append_assoc));
        manager_fresh = subst (ManagerFresh u rest') (sym is') (same' ∙ knows.0);
        workers_fresh = workers-keep same' (inl (ap manager_sync is));
        counted = counted-keep v.counted;
      }
        where
          knows : ManagerFresh s.shared s.rest (ManagerPc.advancing f)
          knows = subst (ManagerFresh s.shared s.rest) is v.manager_fresh

          free : length v.content < s.shared.buffer.buff_size
          free = omega (arith, knows, v.holds)

    -- The manager ends: there may still be work in the buffer.
    closes-Inv :
        s.manager ≡ ManagerPc.next_file
        → m' ≡ ManagerPc.ended
        → u.buffer ≡ s.shared.buffer
        → u.active ≡ false
        → s.rest ≡ []
        → rest' ≡ []
        → Inv files moved
    closes-Inv is is' same clear empty empty' = elim (dec_lt 0 u.buffer.count) [
      | yes more ↦ inl (record {
        live = inr more;
        sync_one = sync-keep;
        content = v.content;
        holds = rw same v.holds;
        accounted = now-accounted;
        manager_fresh = subst (ManagerFresh u rest') (sym is') (clear, empty');
        workers_fresh = now-fresh;
        counted = counted-keep v.counted;
      })
      | no none_left ↦ inr (record {
        inactive = clear;
        empty = omega arith;
        finished = is';
        all_taken =
            all-taken u.taken v.content rest' files m' now-accounted
              (omega (arith, v.holds, ap (λ b. b.count) same)) (is', empty');
        workers_idle = λ j q found. Idle-of u q (now-fresh j q found) (omega arith);
        counted = counted-keep v.counted;
      })
    ]
      where
        now-accounted : u.taken ++ v.content ++ held m' ++ rest' ≡ files
        now-accounted =
            accounted-keep v.content (ap (λ l. v.content ++ l) (rw (is, is', empty, empty')))

        now-fresh : (j : ℕ) (q : WorkerPc) → get_elem? s.workers j ≡ some q → WorkerFresh u q
        now-fresh j q found = WorkerFresh-clear s.shared u q clear same (v.workers_fresh j q found)

    Busy-Inv : Inv files moved
    Busy-Inv = by_change s.manager m' refl refl change
      where
        by_change :
            (a b : ManagerPc)
            → s.manager ≡ a
            → m' ≡ b
            → Change s.shared u s.rest rest' a b
            → Inv files moved
        by_change a b is is' (quiet same same' eq fresh) =
            inl (quiet-Busy same same' (rw (is, is') eq) (rw is' fresh))
        by_change a b is is' (stores f same same' eq) = inl (stores-Busy f same' eq is is' same)
        by_change a b is is' (advances f same same' eq) = inl (advances-Busy f same' eq is is' same)
        by_change a b is is' (closes same clear empty empty') =
            closes-Inv is is' same clear empty empty'

  Over-Inv : Over files s → Inv files moved
  Over-Inv v = absurd (manager_step-ended s.shared u s.rest rest' s.manager m' v.finished e)

  pub manager-Inv : Inv files s → Inv files moved
  manager-Inv (inl v) = Busy-Inv v
  manager-Inv (inr v) = Over-Inv v
