-- ===== src/Parking/Invariant/Attendant.antt =====
-- A step of an attendant keeps the invariant.
use system_related_in_c.Base.{◌+◌, ◌≤◌, ◌≡◌, ◌⊎◌, refl, some, List, false, total, arith, le-total}
use system_related_in_c.Parking.Lot.{ValeType, car_vale, truck_vale, Lot, side}
use system_related_in_c.Parking.Threads.{OwnerPc, AttendantPc, attendant_step}
use system_related_in_c.Parking.System.{MainPc, System, is_done}
use system_related_in_c.Parking.Invariant.Defs.{
  owner_shm, attendant_shm, SideInv, OwnersFresh, Joined, Inv, OwnerFresh-keep,
}

-- The other kind of vehicle.
abbrev other : ValeType → ValeType
other car_vale = truck_vale
other truck_vale = car_vale

module _ (owners : List OwnerPc) (l : Lot) where
  attendant-SideInv :
      (t : ValeType) {l' : Lot} (a a' : AttendantPc)
      → attendant_step t l a ≡ some (l', a')
      → SideInv t l owners a
      → SideInv t l' owners a'
  unfolding attendant_step
  attendant-SideInv car_vale AttendantPc.idle a' e v = ground arith
  attendant-SideInv truck_vale AttendantPc.idle a' e v = ground arith
  attendant-SideInv car_vale a a' e v = ground arith
  attendant-SideInv truck_vale a a' e v = ground arith

  -- The other kind of vehicle is left alone.
  attendant-other :
      (t : ValeType) {l' : Lot} (a a' : AttendantPc) {b : AttendantPc}
      → attendant_step t l a ≡ some (l', a')
      → SideInv (other t) l owners b
      → SideInv (other t) l' owners b
  unfolding attendant_step
  attendant-other car_vale AttendantPc.idle a' e v = ground arith
  attendant-other truck_vale AttendantPc.idle a' e v = ground arith
  attendant-other car_vale a a' e v = ground arith
  attendant-other truck_vale a a' e v = ground arith

  attendant-holds :
      (t : ValeType) {l' : Lot} (a a' : AttendantPc)
      → attendant_step t l a ≡ some (l', a')
      → (l'.shm + attendant_shm a' ≡ l.shm + attendant_shm a) × (l'.entrance ≡ l.entrance)
  unfolding attendant_step
  attendant-holds car_vale AttendantPc.idle a' e = ground arith
  attendant-holds truck_vale AttendantPc.idle a' e = ground arith
  attendant-holds car_vale a a' e = ground arith
  attendant-holds truck_vale a a' e = ground arith

  attendant-waiting :
      (t u : ValeType) {l' : Lot} (a a' : AttendantPc)
      → attendant_step t l a ≡ some (l', a')
      → (attendant_shm a ≡ 1) ⊎ ((side u l').waiting ≡ (side u l).waiting)
  unfolding attendant_step
  attendant-waiting car_vale car_vale AttendantPc.idle a' e = ground arith
  attendant-waiting truck_vale truck_vale AttendantPc.idle a' e = ground arith
  attendant-waiting t u a a' e = ground arith

  attendant-OwnersFresh :
      (t u : ValeType) {l' : Lot} (a a' : AttendantPc)
      → attendant_step t l a ≡ some (l', a')
      → total owner_shm owners + attendant_shm a ≤ 1
      → OwnersFresh u l owners
      → OwnersFresh u l' owners
  attendant-OwnersFresh t u {l'} a a' e alone fresh j q at =
      OwnerFresh-keep u (side u l).waiting (side u l').waiting q
        (ground (arith, attendant-waiting t u {l' = l'} a a' e, le-total owner_shm owners j q at))
        (fresh j q at)

  -- An attendant that is done makes no step.
  not-done :
      (t : ValeType) {l' : Lot} (a a' : AttendantPc)
      → attendant_step t l a ≡ some (l', a')
      → is_done a ≡ false
  unfolding attendant_step
  not-done t AttendantPc.idle a' e = refl
  not-done t a a' e = ground arith

module _ (s : System) (l' : Lot) (a' : AttendantPc) (v : Inv s) where
  Joined-not_done_car : is_done s.car ≡ false → Joined s.main a' s.truck
  Joined-not_done_car e = keep s.main v.joined
    where
      keep : (m : MainPc) → Joined m s.car s.truck → Joined m a' s.truck
      keep MainPc.creating j = tt
      keep m j = ground arith

  Joined-not_done_truck : is_done s.truck ≡ false → Joined s.main s.car a'
  Joined-not_done_truck e = keep s.main v.joined
    where
      keep : (m : MainPc) → Joined m s.car s.truck → Joined m s.car a'
      keep MainPc.creating j = tt
      keep m j = ground arith

  pub car-Inv :
      attendant_step car_vale s.lot s.car ≡ some (l', a') → Inv (record s { lot = l'; car = a' })
  car-Inv e = record {
    locks = omega (arith, v.locks, attendant-holds s.owners s.lot car_vale s.car a' e);
    cars = attendant-SideInv s.owners s.lot car_vale s.car a' e v.cars;
    trucks = attendant-other s.owners s.lot car_vale s.car a' e v.trucks;
    car_owners =
        attendant-OwnersFresh s.owners s.lot car_vale car_vale s.car a' e (omega (arith, v.locks))
          v.car_owners;
    truck_owners =
        attendant-OwnersFresh s.owners s.lot car_vale truck_vale s.car a' e (omega (arith, v.locks))
          v.truck_owners;
    joined = Joined-not_done_car (not-done s.owners s.lot car_vale s.car a' e);
  }

  pub truck-Inv :
      attendant_step truck_vale s.lot s.truck ≡ some (l', a')
      → Inv (record s { lot = l'; truck = a' })
  truck-Inv e = record {
    locks = omega (arith, v.locks, attendant-holds s.owners s.lot truck_vale s.truck a' e);
    cars = attendant-other s.owners s.lot truck_vale s.truck a' e v.cars;
    trucks = attendant-SideInv s.owners s.lot truck_vale s.truck a' e v.trucks;
    car_owners =
        attendant-OwnersFresh s.owners s.lot truck_vale car_vale s.truck a' e
          (omega (arith, v.locks)) v.car_owners;
    truck_owners =
        attendant-OwnersFresh s.owners s.lot truck_vale truck_vale s.truck a' e
          (omega (arith, v.locks)) v.truck_owners;
    joined = Joined-not_done_truck (not-done s.owners s.lot truck_vale s.truck a' e);
  }
