-- ===== src/Parking/Invariant/Owner.antt =====
-- A step of an owner keeps the invariant.
use system_related_in_c.Base.{
  ℕ, ◌+◌, ◌≤◌, ◌≡◌, ◌≢◌, ◌⊎◌, some, List, get_elem?, set, total, arith, total-set, le-total,
  add-le-total, get_elem?-set_cases, inl, inr,
}
use system_related_in_c.Parking.Lot.{ValeType, car_vale, truck_vale, Lot, side}
use system_related_in_c.Parking.Threads.{OwnerPc, AttendantPc, owner_step}
use system_related_in_c.Parking.System.{System}
use system_related_in_c.Parking.Invariant.Defs.{
  owner_shm, attendant_shm, owner_entrance, announcing, OwnerFresh, AttendantFresh, SideInv,
  OwnersFresh, Inv, AttendantFresh-keep, OwnerFresh-keep,
}

module _ (owners : List OwnerPc) (i r : ℕ) where
  -- The totals when owner `i` goes from `p` to `p'`.
  record Moves (p p' : OwnerPc) : Type 0 where
    shm : total owner_shm (set owners i p') + owner_shm p ≡ total owner_shm owners + owner_shm p'
    entrance :
        total owner_entrance (set owners i p') + owner_entrance p
        ≡ total owner_entrance owners + owner_entrance p'
    announces :
        (t : ValeType)
        → total (announcing t) (set owners i p') + announcing t p
          ≡ total (announcing t) owners + announcing t p'

  moves : (p p' : OwnerPc) → get_elem? owners i ≡ some p → Moves p p'
  moves p p' at = record {
    shm = total-set owner_shm owners i p p' at;
    entrance = total-set owner_entrance owners i p p' at;
    announces = λ t. total-set (announcing t) owners i p p' at;
  }

  -- An owner leaves the parking area alone, and changes a counter only while it holds `sem_shm`.
  record Keeps (t : ValeType) (l l' : Lot) (p : OwnerPc) : Type 0 where
    same_places : (side t l').parking_lot ≡ (side t l).parking_lot
    same_waiting : (owner_shm p ≡ 1) ⊎ ((side t l').waiting ≡ (side t l).waiting)

  owner-Keeps :
      (t : ValeType) {l l' : Lot} (p : OwnerPc) {p' : OwnerPc}
      → owner_step r l p ≡ some (l', p')
      → Keeps t l l' p
  unfolding owner_step
  owner-Keeps car_vale (OwnerPc.stored car_vale) e = ground arith
  owner-Keeps truck_vale (OwnerPc.stored car_vale) e = ground arith
  owner-Keeps car_vale (OwnerPc.counted car_vale n) e = ground arith
  owner-Keeps truck_vale (OwnerPc.counted car_vale n) e = ground arith
  owner-Keeps t p e = ground arith

  owner-SideInv :
      (t : ValeType) {l l' : Lot} {a : AttendantPc} (p p' : OwnerPc)
      → owner_step r l p ≡ some (l', p')
      → Moves p p'
      → OwnerFresh t (side t l).waiting p
      → AttendantFresh (side t l') a
      → SideInv t l owners a
      → SideInv t l' (set owners i p') a
  unfolding owner_step
  owner-SideInv car_vale (OwnerPc.stored car_vale) p' e m f g v =
      ground (arith, m.announces car_vale)
  owner-SideInv truck_vale (OwnerPc.stored car_vale) p' e m f g v =
      ground (arith, m.announces truck_vale)
  owner-SideInv car_vale (OwnerPc.counted car_vale n) p' e m f g v =
      ground (arith, m.announces car_vale)
  owner-SideInv truck_vale (OwnerPc.counted car_vale n) p' e m f g v =
      ground (arith, m.announces truck_vale)
  owner-SideInv t p p' e m f g v = ground (arith, m.announces t)

  -- What an owner does to a semaphore shows in what it holds.
  owner-holds :
      (l : Lot) {l' : Lot} (p p' : OwnerPc)
      → owner_step r l p ≡ some (l', p')
      → (l'.shm + owner_shm p' ≡ l.shm + owner_shm p)
        × (l'.entrance + owner_entrance p' ≡ l.entrance + owner_entrance p)
  unfolding owner_step
  owner-holds l (OwnerPc.stored car_vale) p' e = ground arith
  owner-holds l (OwnerPc.counted car_vale n) p' e = ground arith
  owner-holds l p p' e = ground arith

  -- The mover's copy of a counter is the counter: it has just been read.
  owner-OwnerFresh :
      (t : ValeType) (l : Lot) {l' : Lot} (p p' : OwnerPc)
      → owner_step r l p ≡ some (l', p')
      → OwnerFresh t (side t l').waiting p'
  unfolding owner_step
  owner-OwnerFresh car_vale l (OwnerPc.stored car_vale) p' e = ground arith
  owner-OwnerFresh truck_vale l (OwnerPc.stored car_vale) p' e = ground arith
  owner-OwnerFresh car_vale l (OwnerPc.counted car_vale n) p' e = ground arith
  owner-OwnerFresh truck_vale l (OwnerPc.counted car_vale n) p' e = ground arith
  owner-OwnerFresh car_vale l (OwnerPc.locked car_vale) p' e = ground arith
  owner-OwnerFresh truck_vale l (OwnerPc.locked car_vale) p' e = ground arith
  owner-OwnerFresh t l p p' e = ground arith

  owner-OwnersFresh :
      (t : ValeType) (l : Lot) {l' : Lot} (p p' : OwnerPc)
      → get_elem? owners i ≡ some p
      → owner_step r l p ≡ some (l', p')
      → total owner_shm owners ≤ 1
      → OwnersFresh t l owners
      → OwnersFresh t l' (set owners i p')
  owner-OwnersFresh t l {l'} p p' at e alone fresh j q found =
      elim (get_elem?-set_cases owners i j p' q found) [
        | inl eq ↦ rw eq (owner-OwnerFresh t l p p' e)
        | inr old ↦
            OwnerFresh-keep t (side t l).waiting (side t l').waiting q (others old.0 old.1)
              (fresh j q old.1)
      ]
    where
      others :
          i ≢ j
          → get_elem? owners j ≡ some q
          → (owner_shm q ≡ 0) ⊎ ((side t l').waiting ≡ (side t l).waiting)
      others ne at_j = ground (
        arith,
        owner-Keeps t {l = l} {l' = l'} p e,
        add-le-total owner_shm owners i j p q ne at at_j,
      )

pub owner-Inv :
    (s : System) (i r : ℕ) (p p' : OwnerPc) (l' : Lot)
    → get_elem? s.owners i ≡ some p
    → owner_step r s.lot p ≡ some (l', p')
    → Inv s
    → Inv (record s { lot = l'; owners = set s.owners i p' })
owner-Inv s i r p p' l' at e v = record {
  locks = omega (arith, m.shm, m.entrance, owner-holds s.owners i r s.lot p p' e, v.locks);
  cars = half car_vale s.car v.cars (v.car_owners i p at) (omega (arith, v.locks, holder));
  trucks =
      half truck_vale s.truck v.trucks (v.truck_owners i p at) (omega (arith, v.locks, holder));
  car_owners =
      owner-OwnersFresh s.owners i r car_vale s.lot p p' at e (omega (arith, v.locks)) v.car_owners;
  truck_owners =
      owner-OwnersFresh s.owners i r truck_vale s.lot p p' at e (omega (arith, v.locks))
        v.truck_owners;
  joined = v.joined;
}
  where
    m : Moves s.owners i r p p'
    m = moves s.owners i r p p' at

    holder : owner_shm p ≤ total owner_shm s.owners
    holder = le-total owner_shm s.owners i p at

    half :
        (t : ValeType) (a : AttendantPc)
        → SideInv t s.lot s.owners a
        → OwnerFresh t (side t s.lot).waiting p
        → owner_shm p + attendant_shm a ≤ 1
        → SideInv t l' (set s.owners i p') a
    half t a old f alone =
        let k = owner-Keeps s.owners i r t {l = s.lot} {l' = l'} p e in
        owner-SideInv s.owners i r t p p' e m f
          (AttendantFresh-keep a (side t s.lot) (side t l') k.same_places (ground arith)
            old.attendant_fresh)
          old
