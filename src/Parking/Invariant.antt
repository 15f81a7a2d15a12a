-- ===== src/Parking/Invariant.antt =====
-- The invariant of the car park: true at the start, and kept by every step of every thread.
mod Defs
mod Owner
mod Attendant
mod Main
pub use Defs.{
  owner_shm, attendant_shm, main_shm, owner_entrance, attendant_charge, Joined, entered_count,
  charged_count, SideInv, Inv,
}
use Owner.{owner-Inv}
use Attendant.{car-Inv, truck-Inv}
use Main.{main-Inv}
use system_related_in_c.Base.{refl, ◌≡◌, arith}
use system_related_in_c.Parking.System.{
  System, init, Step, owner, car_attendant, truck_attendant, main_thread, Reach, here, next,
}

pub init-Inv : Inv init
init-Inv = record {
  locks = omega arith;
  cars = omega arith;
  trucks = omega arith;
  car_owners = λ i p at. cc;
  truck_owners = λ i p at. cc;
  joined = tt;
}

pub Step-Inv : {s t : System} → Step s t → Inv s → Inv t
Step-Inv {s} (owner i r {p} {p'} {l} at e) v = owner-Inv s i r p p' l at e v
Step-Inv {s} (car_attendant {l} {p} e) v = car-Inv s l p v e
Step-Inv {s} (truck_attendant {l} {p} e) v = truck-Inv s l p v e
Step-Inv {s} {t} (main_thread e) v = main-Inv s t v e

pub Reach-Inv : {s : System} → Reach s → Inv s
Reach-Inv here = init-Inv
Reach-Inv (next r st) = Step-Inv st (Reach-Inv r)
