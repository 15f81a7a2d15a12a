-- ===== src/Parking/Lot.antt =====
-- What the threads of shared_mem_and_threads/main.c share: the two counters in shared memory, the
-- semaphores and the terminal.
use system_related_in_c.Base.{ℕ, zero, suc, ◌+◌, ◌-◌, ◌%◌, Option, none, some, List, [], ◌∷◌}

-- `ValeType`, and also the kind of a vehicle.
pub data ValeType : Type 0 where
  car_vale : ValeType
  truck_vale : ValeType

-- What is printed, by the kind of vehicle.
pub data Event : Type 0 where
  entered : ValeType → Event  -- "Car entered temp parking lot"
  full : ValeType → Event  -- "Car Temp parking lot is full"
  charged : ValeType → Event  -- "Car is being charged to park area"
  refused : ValeType → Event  -- "No car to charge"

-- What there is of each kind of vehicle.
pub record Side : Type 0 where
  pub waiting : ℕ  -- *mFree_automobile, *mFree_pickup
  pub new_vehicle : ℕ  -- sem_new_automobile, sem_new_pickup
  pub charge : ℕ  -- sem_charge_automobile, sem_charge_pickup
  pub parking_lot : ℕ  -- sem_parking_lot_car, sem_parking_lot_truck

pub record Lot : Type 0 where
  pub automobile : Side
  pub pickup : Side
  pub entrance : ℕ  -- sem_entrance
  pub shm : ℕ  -- sem_shm
  pub out : List Event  -- the terminal, the last line first

-- The places of the temporary lot; there are as many in the parking area.
abbrev pub capacity : ValeType → ℕ
capacity car_vale = 8
capacity truck_vale = 4

abbrev pub side : ValeType → Lot → Side
side car_vale l = l.automobile
side truck_vale l = l.pickup

abbrev pub put_side : ValeType → Side → Lot → Lot
put_side car_vale s l = record l { automobile = s }
put_side truck_vale s l = record l { pickup = s }

abbrev pub say : Event → Lot → Lot
say e l = record l { out = e ∷ l.out }

-- The counters at 0 and the semaphores as `sem_open` creates them.
abbrev pub fresh_side : ValeType → Side
fresh_side t = record { waiting = 0; new_vehicle = 0; charge = 1; parking_lot = capacity t }

abbrev pub fresh_lot : Lot
fresh_lot = record {
  automobile = fresh_side car_vale;
  pickup = fresh_side truck_vale;
  entrance = 1;
  shm = 1;
  out = [];
}

-- `sem_wait` on a semaphore at 0 waits, and `sem_trywait` fails: both are `none`.
abbrev pub sem_wait : ℕ → Option ℕ
sem_wait zero = none
sem_wait (suc n) = some n

abbrev pub sem_post : ℕ → ℕ
sem_post n = n + 1

-- `random` is what `rand()` returns.
unfoldable pub print_randoms : ℕ → ℕ → ℕ → ℕ
print_randoms random lower upper = random % (upper - lower + 1) + lower
