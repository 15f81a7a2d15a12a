-- ===== src/Parking/Threads.antt =====
-- The threads of shared_mem_and_threads/main.c, one access to what they share at a time. A line
-- that is printed goes with the access that follows it.
use system_related_in_c.Base.{ℕ, ◌+◌, ◌-◌, Option, none, some, ltb, if◌then◌else◌}
use system_related_in_c.Parking.Lot.{
  ValeType, car_vale, truck_vale, entered, full, charged, refused, Lot, capacity, side, put_side,
  say, sem_wait, sem_post, print_randoms,
}

-- Where an owner stands in `carOwner`, with the local variables that are live there.
pub data OwnerPc : Type 0 where
  start : OwnerPc
  outside : ℕ → OwnerPc  -- before sem_wait(sem_entrance), with `rand`
  inside : ℕ → OwnerPc  -- before sem_wait(sem_shm)
  locked : ValeType → OwnerPc  -- before the counter is read
  counted : ValeType → ℕ → OwnerPc  -- with car_count_in_temp_space
  stored : ValeType → OwnerPc  -- before sem_post(new_automobile)
  unlocking : OwnerPc  -- before sem_post(sem_shm)
  departing : OwnerPc  -- before sem_post(sem_entrance)
  gone : OwnerPc

-- Where an attendant stands in `carAttendant`.
pub data AttendantPc : Type 0 where
  idle : AttendantPc  -- before sem_wait(new_automobile)
  called : AttendantPc  -- before sem_wait(sem_shm)
  locked : AttendantPc  -- before the counter is read
  counted : ℕ → AttendantPc  -- before sem_wait(sem_charge), with car_count
  charging : ℕ → AttendantPc  -- before the test
  taken : ℕ → AttendantPc  -- sem_trywait(sem_parking_lot) has succeeded
  stored : AttendantPc  -- before sem_post(sem_charge)
  leaving : AttendantPc  -- before sem_post(sem_shm)
  refusing : AttendantPc  -- the same two posts before the `break`
  giving_up : AttendantPc
  done : AttendantPc

abbrev pub kind_of : ℕ → ValeType
kind_of rand = if ltb rand 10 then car_vale else truck_vale

-- A step of `carOwner`, if it does not wait. `random` is what `rand()` returns in it.
unfoldable pub owner_step : ℕ → Lot → OwnerPc → Option (Lot × OwnerPc)
unfolding print_randoms
owner_step random l start = some (l, outside (print_randoms random 0 20))
owner_step random l (outside rand) = elim (sem_wait l.entrance) [
  | none ↦ none
  | some e ↦ some (record l { entrance = e }, inside rand)
]
owner_step random l (inside rand) = elim (sem_wait l.shm) [
  | none ↦ none
  | some s ↦ some (record l { shm = s }, locked (kind_of rand))
]
owner_step random l (locked t) = some (l, counted t (side t l).waiting)
owner_step random l (counted t n) =
    if ltb n (capacity t)
    then some (say (entered t) (put_side t (record (side t l) { waiting = n + 1 }) l), stored t)
    else some (say (full t) l, unlocking)
owner_step random l (stored t) =
    let new_vehicle = sem_post (side t l).new_vehicle in
    some (put_side t (record (side t l) { new_vehicle = new_vehicle }) l, unlocking)
owner_step random l unlocking = some (record l { shm = sem_post l.shm }, departing)
owner_step random l departing = some (record l { entrance = sem_post l.entrance }, gone)
owner_step random l gone = none

-- A step of `carAttendant` for one kind of vehicle, if it does not wait.
unfoldable pub attendant_step : ValeType → Lot → AttendantPc → Option (Lot × AttendantPc)
attendant_step t l idle = elim (sem_wait (side t l).new_vehicle) [
  | none ↦ none
  | some n ↦ some (put_side t (record (side t l) { new_vehicle = n }) l, called)
]
attendant_step t l called = elim (sem_wait l.shm) [
  | none ↦ none
  | some s ↦ some (record l { shm = s }, locked)
]
attendant_step t l locked = some (l, counted (side t l).waiting)
attendant_step t l (counted n) = elim (sem_wait (side t l).charge) [
  | none ↦ none
  | some c ↦ some (put_side t (record (side t l) { charge = c }) l, charging n)
]
attendant_step t l (charging n) = elim (if ltb 0 n then sem_wait (side t l).parking_lot else none) [
  | none ↦ some (say (refused t) l, refusing)
  | some p ↦ some (put_side t (record (side t l) { parking_lot = p }) l, taken n)
]
attendant_step t l (taken n) =
    some (say (charged t) (put_side t (record (side t l) { waiting = n - 1 }) l), stored)
attendant_step t l stored =
    some (put_side t (record (side t l) { charge = sem_post (side t l).charge }) l, leaving)
attendant_step t l leaving = some (record l { shm = sem_post l.shm }, idle)
attendant_step t l refusing =
    some (put_side t (record (side t l) { charge = sem_post (side t l).charge }) l, giving_up)
attendant_step t l giving_up = some (record l { shm = sem_post l.shm }, done)
attendant_step t l done = none
