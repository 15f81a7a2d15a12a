-- ===== src/Parking/Safety.antt =====
-- What holds of the car park whatever the order of the threads' steps.
use system_related_in_c.Base.{
  ℕ, ◌+◌, ◌≤◌, ◌<◌, ◌≡◌, ◌≢◌, some, List, true, get_elem?, total, arith, subst, add-le-total,
}
use system_related_in_c.Parking.Lot.{ValeType, car_vale, truck_vale, Lot, side, capacity}
use system_related_in_c.Parking.Threads.{OwnerPc, AttendantPc}
use system_related_in_c.Parking.System.{MainPc, System, is_done, Reach}
use system_related_in_c.Parking.Invariant.{
  owner_shm, attendant_shm, main_shm, owner_entrance, Joined, entered_count, charged_count, SideInv,
  Inv, Reach-Inv,
}

-- The attendant for a kind of vehicle.
abbrev pub attendant : ValeType → System → AttendantPc
attendant car_vale s = s.car
attendant truck_vale s = s.truck

side-Inv : (t : ValeType) {s : System} → Inv s → SideInv t s.lot s.owners (attendant t s)
side-Inv car_vale v = v.cars
side-Inv truck_vale v = v.trucks

-- How many threads hold `sem_shm`.
abbrev pub holders : System → ℕ
holders s = total owner_shm s.owners + attendant_shm s.car + attendant_shm s.truck + main_shm s.main

-- In every state that the threads reach: at most one of all threads is between its `sem_wait` and
-- its `sem_post` on `sem_shm`, and no two owners are both between theirs on `sem_entrance`.
pub mutual_exclusion :
    {s : System}
    → Reach s
    → (holders s ≤ 1)
      × ((i j : ℕ) (p q : OwnerPc)
          → get_elem? s.owners i ≡ some p
          → get_elem? s.owners j ≡ some q
          → i ≢ j
          → owner_entrance p + owner_entrance q ≤ 1)
mutual_exclusion {s} r = (
  omega (arith, (Reach-Inv r).locks),
  λ i j p q at_i at_j ne.
      omega (arith, (Reach-Inv r).locks, add-le-total owner_entrance s.owners i j p q ne at_i at_j),
)

-- In every state that the threads reach: the counters in shared memory never count more than 8
-- automobiles and 4 pickups.
pub temporary_lot_bounded :
    {s : System} → Reach s → (s.lot.automobile.waiting ≤ 8) × (s.lot.pickup.waiting ≤ 4)
temporary_lot_bounded r = ((Reach-Inv r).cars.room, (Reach-Inv r).trucks.room)

-- In every state that the threads reach: the vehicles of a kind that have entered are those that
-- wait and those charged to the parking area, and the latter are no more than its places.
pub no_vehicle_lost :
    {s : System} (t : ValeType)
    → Reach s
    → (entered_count t s.lot ≡ (side t s.lot).waiting + charged_count t s.lot)
      × (charged_count t s.lot ≤ capacity t)
no_vehicle_lost t r = ((side-Inv t (Reach-Inv r)).admitted, omega (arith, side-Inv t (Reach-Inv r)))

-- An attendant that is done owes a vehicle a place, and there is no place left.
done-full :
    (t : ValeType) (l : Lot) (owners : List OwnerPc) (a : AttendantPc)
    → SideInv t l owners a
    → is_done a ≡ true
    → (charged_count t l ≡ capacity t) × (0 < (side t l).waiting)
done-full t l owners AttendantPc.done v e = (omega (arith, v), omega (arith, v))
done-full t l owners a v e = absurd (ground arith)

-- In every state that the threads reach: if an attendant has left, the parking area for its kind
-- is full, and a vehicle still waits in the temporary lot.
pub attendant_leaves_full :
    {s : System} (t : ValeType)
    → Reach s
    → is_done (attendant t s) ≡ true
    → (charged_count t s.lot ≡ capacity t) × (0 < (side t s.lot).waiting)
attendant_leaves_full {s} t r e =
    done-full t s.lot s.owners (attendant t s) (side-Inv t (Reach-Inv r)) e

-- In every state that the threads reach: if `main` has ended, at least 9 automobiles and 5
-- pickups have entered the temporary lot.
pub main_ends_late :
    {s : System}
    → Reach s
    → s.main ≡ MainPc.finished
    → (9 ≤ entered_count car_vale s.lot) × (5 ≤ entered_count truck_vale s.lot)
main_ends_late {s} r e =
    let v = Reach-Inv r in
    let j = subst (λ m. Joined m s.car s.truck) e v.joined in
    omega (
      arith,
      no_vehicle_lost car_vale r,
      no_vehicle_lost truck_vale r,
      done-full car_vale s.lot s.owners s.car v.cars j.0,
      done-full truck_vale s.lot s.owners s.truck v.trucks j.1,
    )

-- In every state that the threads reach: an attendant that has been called and has read the
-- counter has read at least 1, so a call comes with a vehicle.
pub call_has_vehicle :
    {s : System} {n : ℕ} (t : ValeType) → Reach s → attendant t s ≡ AttendantPc.charging n → 0 < n
call_has_vehicle {s} {n} t r e = charging-pos s t (attendant t s) e (side-Inv t (Reach-Inv r))
  where
    charging-pos :
        (s : System) (t : ValeType) (a : AttendantPc)
        → a ≡ AttendantPc.charging n
        → SideInv t s.lot s.owners a
        → 0 < n
    charging-pos s t (AttendantPc.charging k) e v = ground (arith, v)
    charging-pos s t a e v = absurd (ground arith)
