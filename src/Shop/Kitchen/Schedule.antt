-- ===== src/Shop/Kitchen/Schedule.antt =====
-- Reachable states of the kitchen by evaluation: the threads take turns in a given order.
use system_related_in_c.Base.{
  ℕ, zero, suc, ◌+◌, ◌≡◌, some, inl, inr, List, [], ◌∷◌, ◌++◌, get_elem?, Option-cases,
}
use system_related_in_c.Grades.Text.{Str}
use system_related_in_c.Shop.Kitchen.{Order}
use system_related_in_c.Shop.Kitchen.Cooks.{cook_step}
use system_related_in_c.Shop.Kitchen.Riders.{RiderPc, rider_step}
use system_related_in_c.Shop.Kitchen.Manager.{manager_step, sender_step}
use system_related_in_c.Shop.Kitchen.System.{
  System, init, cook, rider, manager, sender, Reach, here, next, woken, rider_wakes,
}

pub data Turn : Type 0 where
  of_cook : ℕ → Turn
  of_rider : ℕ → Turn
  of_manager : Turn
  of_sender : Turn
  wakes_rider : ℕ → Turn  -- without a broadcast, if it sleeps

module _ (blank : Order) (ids : ℕ → ℕ) (n m : ℕ) (texts : List Str) where
  pub record Reached : Type 0 where
    pub last : System
    pub reach : Reach blank ids n m texts last

  wake : (s : Reached) (k : ℕ) (p : RiderPc) → get_elem? s.last.riders k ≡ some p → Reached
  wake s k (RiderPc.asleep j) at = record { last = _; reach = woken s.reach (rider_wakes k at) }
  wake s k p at = s

  -- A thread that has to wait lets its turn pass. The cook `k` is the thread 50 + k.
  take_turn : Reached → Turn → Reached
  unfolding Option-cases wake cook_step rider_step manager_step sender_step
  take_turn s (of_cook k) = elim (Option-cases (get_elem? s.last.cooks k)) [
    | inl _ ↦ s
    | inr (p, at) ↦ elim (Option-cases (cook_step (50 + k) s.last.shared p)) [
      | inl _ ↦ s
      | inr (r, e) ↦ record { last = _; reach = next s.reach (cook k (50 + k) at e) }
    ]
  ]
  take_turn s (of_rider k) = elim (Option-cases (get_elem? s.last.riders k)) [
    | inl _ ↦ s
    | inr (p, at) ↦ elim (Option-cases (rider_step (ids k) s.last.shared p)) [
      | inl _ ↦ s
      | inr (r, e) ↦ record { last = _; reach = next s.reach (rider k at e) }
    ]
  ]
  take_turn s of_manager =
      elim (Option-cases (manager_step blank s.last.shared s.last.rest s.last.manager)) [
        | inl _ ↦ s
        | inr (r, e) ↦ record { last = _; reach = next s.reach (manager e) }
      ]
  take_turn s of_sender = elim (Option-cases (sender_step s.last.shared)) [
    | inl _ ↦ s
    | inr (u, e) ↦ record { last = _; reach = next s.reach (sender e) }
  ]
  take_turn s (wakes_rider k) = elim (Option-cases (get_elem? s.last.riders k)) [
    | inl _ ↦ s
    | inr (p, at) ↦ wake s k p at
  ]

  run_from : Reached → List Turn → Reached
  run_from s [] = s
  run_from s (t ∷ ts) = run_from (take_turn s t) ts

  unfoldable pub run : List Turn → Reached
  unfolding take_turn run_from
  run = run_from (record { last = init ids n m texts; reach = here })

-- The turns, so many times.
abbrev pub times : ℕ → List Turn → List Turn
times zero ts = []
times (suc k) ts = ts ++ times k ts
