-- ===== src/Copier/Schedule.antt =====
-- Reachable states of the copier by evaluation: the threads take turns in a given order.
use system_related_in_c.Base.{
  ℕ, zero, suc, inl, inr, List, [], ◌∷◌, length, get_elem?, Option-cases,
}
use system_related_in_c.Copier.Buffer.{FileNames}
use system_related_in_c.Copier.Threads.{worker_step, manager_step}
use system_related_in_c.Copier.System.{System, init, worker, manager, Reach, here, next}

pub data Turn : Type 0 where
  of_worker : ℕ → Turn
  of_manager : Turn

module _ (tasks : List FileNames) (n : ℕ) (files : List FileNames) where
  pub record Reached : Type 0 where
    pub last : System
    pub reach : Reach tasks n files last

  -- A thread that has to wait lets its turn pass.
  take_turn : Reached → Turn → Reached
  unfolding Option-cases worker_step manager_step
  take_turn s (of_worker i) = elim (Option-cases (get_elem? s.last.workers i)) [
    | inl _ ↦ s
    | inr (p, at) ↦ elim (Option-cases (worker_step (length s.last.workers) s.last.shared p)) [
      | inl _ ↦ s
      | inr (r, e) ↦ record { last = _; reach = next s.reach (worker i at e) }
    ]
  ]
  take_turn s of_manager =
      elim (Option-cases (manager_step s.last.shared s.last.rest s.last.manager)) [
        | inl _ ↦ s
        | inr (r, e) ↦ record { last = _; reach = next s.reach (manager e) }
      ]

  run_from : Reached → List Turn → Reached
  run_from s [] = s
  run_from s (t ∷ ts) = run_from (take_turn s t) ts

  unfoldable pub run : List Turn → Reached
  unfolding take_turn run_from
  run = run_from (record { last = init tasks n files; reach = here })

-- Some rounds in which the manager and two workers take a turn each.
abbrev pub rounds : ℕ → List Turn → List Turn
rounds zero rest = rest
rounds (suc k) rest = of_manager ∷ of_worker 0 ∷ of_worker 1 ∷ rounds k rest
