-- ===== src/Parking/Invariant/Defs.antt =====
-- Who holds which semaphore, and what the counters count.
use system_related_in_c.Base.{ℕ, ◌+◌, ◌≤◌, ◌≡◌, ◌⊎◌, arith, some, List, true, get_elem?, total}
use system_related_in_c.Parking.Lot.{
  ValeType, car_vale, truck_vale, Event, entered, charged, Side, Lot, capacity, side,
}
use system_related_in_c.Parking.Threads.{OwnerPc, AttendantPc}
use system_related_in_c.Parking.System.{MainPc, System, is_done}

-- 1 where the thread holds `sem_shm`.
abbrev pub owner_shm : OwnerPc → ℕ
owner_shm (OwnerPc.locked _) = 1
owner_shm (OwnerPc.counted _ _) = 1
owner_shm (OwnerPc.stored _) = 1
owner_shm OwnerPc.unlocking = 1
owner_shm _ = 0

abbrev pub attendant_shm : AttendantPc → ℕ
attendant_shm AttendantPc.idle = 0
attendant_shm AttendantPc.called = 0
attendant_shm AttendantPc.done = 0
attendant_shm _ = 1

abbrev pub main_shm : MainPc → ℕ
main_shm MainPc.holding = 1
main_shm _ = 0

-- 1 where the owner holds `sem_entrance`.
abbrev pub owner_entrance : OwnerPc → ℕ
owner_entrance OwnerPc.start = 0
owner_entrance (OwnerPc.outside _) = 0
owner_entrance OwnerPc.gone = 0
owner_entrance _ = 1

-- 1 where the attendant holds its `sem_charge`.
abbrev pub attendant_charge : AttendantPc → ℕ
attendant_charge (AttendantPc.charging _) = 1
attendant_charge (AttendantPc.taken _) = 1
attendant_charge AttendantPc.stored = 1
attendant_charge AttendantPc.refusing = 1
attendant_charge _ = 0

-- 1 where the owner has counted its vehicle and not yet called the attendant.
abbrev pub announcing : ValeType → OwnerPc → ℕ
announcing car_vale (OwnerPc.stored car_vale) = 1
announcing truck_vale (OwnerPc.stored truck_vale) = 1
announcing _ _ = 0

-- 1 where the attendant has taken a call and the vehicle still waits.
abbrev pub owed : AttendantPc → ℕ
owed AttendantPc.idle = 0
owed AttendantPc.stored = 0
owed AttendantPc.leaving = 0
owed _ = 1

-- 1 where the attendant has a place for a vehicle that still waits.
abbrev pub placing : AttendantPc → ℕ
placing (AttendantPc.taken _) = 1
placing _ = 0

abbrev pub is_entered : ValeType → Event → ℕ
is_entered car_vale (entered car_vale) = 1
is_entered truck_vale (entered truck_vale) = 1
is_entered _ _ = 0

abbrev pub is_charged : ValeType → Event → ℕ
is_charged car_vale (charged car_vale) = 1
is_charged truck_vale (charged truck_vale) = 1
is_charged _ _ = 0

-- How many vehicles of a kind have entered the temporary lot, and have been taken to the parking
-- area, by what is printed.
abbrev pub entered_count : ValeType → Lot → ℕ
entered_count t l = total (is_entered t) l.out

abbrev pub charged_count : ValeType → Lot → ℕ
charged_count t l = total (is_charged t) l.out

-- What an owner's copy of the counter of kind `t` says of the counter.
abbrev pub OwnerFresh : ValeType → ℕ → OwnerPc → Type 0
OwnerFresh car_vale waiting (OwnerPc.counted car_vale n) = waiting ≡ n
OwnerFresh truck_vale waiting (OwnerPc.counted truck_vale n) = waiting ≡ n
OwnerFresh _ _ _ = Unit

-- What the place of an attendant says of its counter and of the places left.
abbrev pub AttendantFresh : Side → AttendantPc → Type 0
AttendantFresh s (AttendantPc.counted n) = s.waiting ≡ n
AttendantFresh s (AttendantPc.charging n) = s.waiting ≡ n
AttendantFresh s (AttendantPc.taken n) = s.waiting ≡ n
AttendantFresh s AttendantPc.refusing = s.parking_lot ≡ 0
AttendantFresh s AttendantPc.giving_up = s.parking_lot ≡ 0
AttendantFresh s AttendantPc.done = s.parking_lot ≡ 0
AttendantFresh s _ = Unit

-- One kind of vehicle, with the attendant for it.
pub record SideInv (t : ValeType) (l : Lot) (owners : List OwnerPc) (p : AttendantPc) : Type 0 where
  pub charge_one : (side t l).charge + attendant_charge p ≡ 1
  pub waits : (side t l).waiting ≡ (side t l).new_vehicle + total (announcing t) owners + owed p
  pub room : (side t l).waiting ≤ capacity t
  pub admitted : entered_count t l ≡ (side t l).waiting + charged_count t l
  pub places : (side t l).parking_lot + charged_count t l + placing p ≡ capacity t
  pub attendant_fresh : AttendantFresh (side t l) p

pub record Locks (s : System) : Type 0 where
  pub shm_one :
      s.lot.shm
        + total owner_shm s.owners
        + attendant_shm s.car
        + attendant_shm s.truck
        + main_shm s.main
      ≡ 1
  pub entrance_one : s.lot.entrance + total owner_entrance s.owners ≡ 1

abbrev pub OwnersFresh : ValeType → Lot → List OwnerPc → Type 0
OwnersFresh t l owners =
    (i : ℕ) (p : OwnerPc) → get_elem? owners i ≡ some p → OwnerFresh t (side t l).waiting p

-- `main` has joined an attendant only when it was done.
abbrev pub Joined : MainPc → AttendantPc → AttendantPc → Type 0
Joined MainPc.join_truck car truck = is_done car ≡ true
Joined MainPc.finished car truck = (is_done car ≡ true) × (is_done truck ≡ true)
Joined _ car truck = Unit

pub record Inv (s : System) : Type 0 where
  pub locks : Locks s
  pub cars : SideInv car_vale s.lot s.owners s.car
  pub trucks : SideInv truck_vale s.lot s.owners s.truck
  pub car_owners : OwnersFresh car_vale s.lot s.owners
  pub truck_owners : OwnersFresh truck_vale s.lot s.owners
  pub joined : Joined s.main s.car s.truck

-- An attendant's facts last while the places do, and its copy while nobody changes the counter.
pub AttendantFresh-keep :
    (a : AttendantPc) (s s' : Side)
    → s'.parking_lot ≡ s.parking_lot
    → (attendant_shm a ≡ 0) ⊎ (s'.waiting ≡ s.waiting)
    → AttendantFresh s a
    → AttendantFresh s' a
AttendantFresh-keep AttendantPc.idle s s' e w f = tt
AttendantFresh-keep a s s' e w f = ground arith

-- An owner that does not hold `sem_shm` has no copy.
pub OwnerFresh-keep :
    (t : ValeType) (n n' : ℕ) (p : OwnerPc)
    → (owner_shm p ≡ 0) ⊎ (n' ≡ n)
    → OwnerFresh t n p
    → OwnerFresh t n' p
OwnerFresh-keep car_vale n n' (OwnerPc.counted car_vale k) w f = ground arith
OwnerFresh-keep truck_vale n n' (OwnerPc.counted car_vale k) w f = tt
OwnerFresh-keep t n n' p w f = ground arith
