-- ===== src/Parking/Schedule.antt =====
-- Reachable states of the car park by evaluation: the threads take turns in a given order.
use system_related_in_c.Base.{
  ℕ, zero, suc, ◌+◌, ◌*◌, ◌%◌, inl, inr, List, [], ◌∷◌, get_elem?, Option-cases,
}
use system_related_in_c.Parking.Lot.{car_vale, truck_vale}
use system_related_in_c.Parking.Threads.{owner_step, attendant_step}
use system_related_in_c.Parking.System.{
  System, init, main_step, owner, car_attendant, truck_attendant, main_thread, Reach, here, next,
}

pub data Turn : Type 0 where
  of_owner : ℕ → ℕ → Turn  -- which one, and what `rand()` returns
  of_car : Turn
  of_truck : Turn
  of_main : Turn

pub record Reached : Type 0 where
  pub last : System
  pub reach : Reach last

-- A thread that has to wait lets its turn pass.
take_turn : Reached → Turn → Reached
unfolding Option-cases owner_step attendant_step main_step
take_turn s (of_owner i random) = elim (Option-cases (get_elem? s.last.owners i)) [
  | inl _ ↦ s
  | inr (p, at) ↦ elim (Option-cases (owner_step random s.last.lot p)) [
    | inl _ ↦ s
    | inr (r, e) ↦ record { last = _; reach = next s.reach (owner i random at e) }
  ]
]
take_turn s of_car = elim (Option-cases (attendant_step car_vale s.last.lot s.last.car)) [
  | inl _ ↦ s
  | inr (r, e) ↦ record { last = _; reach = next s.reach (car_attendant e) }
]
take_turn s of_truck = elim (Option-cases (attendant_step truck_vale s.last.lot s.last.truck)) [
  | inl _ ↦ s
  | inr (r, e) ↦ record { last = _; reach = next s.reach (truck_attendant e) }
]
take_turn s of_main = elim (Option-cases (main_step s.last s.last.main)) [
  | inl _ ↦ s
  | inr (t, e) ↦ record { last = t; reach = next s.reach (main_thread e) }
]

run_from : Reached → List Turn → Reached
run_from s [] = s
run_from s (t ∷ ts) = run_from (take_turn s t) ts

unfoldable pub run : List Turn → Reached
unfolding take_turn run_from
run = run_from (record { last = init; reach = here })

abbrev pub repeat : ℕ → Turn → List Turn → List Turn
repeat zero t rest = rest
repeat (suc n) t rest = t ∷ repeat n t rest

-- `main` creates owner `i`, who goes all the way, and then the attendants work.
abbrev pub round : ℕ → List Turn → List Turn
round i rest =
    repeat 3 of_main (repeat 9 (of_owner i (i % 2 * 10)) (repeat 9 of_car (repeat 9 of_truck rest)))

abbrev pub rounds : ℕ → ℕ → List Turn → List Turn
rounds zero i rest = rest
rounds (suc n) i rest = round i (rounds n (i + 1) rest)
