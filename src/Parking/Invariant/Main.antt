-- ===== src/Parking/Invariant/Main.antt =====
-- A step of `main` keeps the invariant.
use system_related_in_c.Base.{
  ℕ, ◌+◌, ◌≡◌, refl, inl, inr, some, List, [], ◌∷◌, ◌++◌, true, arith, total-append,
  get_elem?-append_one, Bool-cases, ltb, Option-cases, subst,
}
use system_related_in_c.Parking.Lot.{ValeType, car_vale, truck_vale, Lot, side, sem_wait}
use system_related_in_c.Parking.Threads.{OwnerPc, AttendantPc}
use system_related_in_c.Parking.System.{MainPc, System, main_step, is_done, num_threads}
use system_related_in_c.Parking.Invariant.Defs.{
  owner_shm, owner_entrance, main_shm, announcing, OwnerFresh, SideInv, OwnersFresh, Joined, Inv,
}

-- A new owner holds nothing and has counted nothing.
create-SideInv :
    (t : ValeType) (l : Lot) (owners : List OwnerPc) (a : AttendantPc)
    → SideInv t l owners a
    → SideInv t l (owners ++ OwnerPc.start ∷ []) a
create-SideInv car_vale l owners a v =
    ground (arith, total-append (announcing car_vale) owners (OwnerPc.start ∷ []))
create-SideInv truck_vale l owners a v =
    ground (arith, total-append (announcing truck_vale) owners (OwnerPc.start ∷ []))

create-OwnersFresh :
    (t : ValeType) (l : Lot) (owners : List OwnerPc)
    → OwnersFresh t l owners
    → OwnersFresh t l (owners ++ OwnerPc.start ∷ [])
create-OwnersFresh t l owners fresh j q at =
    elim (get_elem?-append_one owners OwnerPc.start q j at) [
      | inl e ↦ rw e (at_start t)
      | inr old ↦ fresh j q old
    ]
  where
    at_start : (t : ValeType) → OwnerFresh t (side t l).waiting OwnerPc.start
    at_start car_vale = tt
    at_start truck_vale = tt

create-Inv :
    (s : System) (n : ℕ)
    → main_shm s.main ≡ 0
    → Inv s
    → Inv (record s {
      owners = s.owners ++ OwnerPc.start ∷ [];
      thread_count = n;
      main = MainPc.counting;
    })
create-Inv s n e v = record {
  locks = omega (
    arith,
    v.locks,
    total-append owner_shm s.owners (OwnerPc.start ∷ []),
    total-append owner_entrance s.owners (OwnerPc.start ∷ []),
  );
  cars = create-SideInv car_vale s.lot s.owners s.car v.cars;
  trucks = create-SideInv truck_vale s.lot s.owners s.truck v.trucks;
  car_owners = create-OwnersFresh car_vale s.lot s.owners v.car_owners;
  truck_owners = create-OwnersFresh truck_vale s.lot s.owners v.truck_owners;
  joined = tt;
}

-- `main` takes or gives back `sem_shm`, or only goes on.
move-Inv :
    (s : System) (n : ℕ) (m : MainPc)
    → n + main_shm m ≡ s.lot.shm + main_shm s.main
    → Joined m s.car s.truck
    → Inv s
    → Inv (record s { lot = record s.lot { shm = n }; main = m })
move-Inv s n m e j v = record {
  locks = omega (arith, v.locks);
  cars = ground (arith, v.cars);
  trucks = ground (arith, v.trucks);
  car_owners = v.car_owners;
  truck_owners = v.truck_owners;
  joined = j;
}

-- `main` goes on and touches no semaphore.
go_on :
    (s t : System) (m m' : MainPc)
    → s.main ≡ m
    → (main_shm m ≡ 0) × (main_shm m' ≡ 0)
    → Joined m' s.car s.truck
    → record s { main = m' } ≡ t
    → Inv s
    → Inv t
go_on s t m m' at free j e v = subst Inv e (move-Inv s s.lot.shm m' (rw (at, free.0, free.1)) j v)

main_step-Inv : (s t : System) (m : MainPc) → s.main ≡ m → main_step s m ≡ some t → Inv s → Inv t
unfolding main_step
main_step-Inv s t MainPc.creating at e v = elim (Bool-cases (ltb s.thread_count num_threads)) [
  | inl more ↦ subst Inv (ground arith) (create-Inv s (s.thread_count + 1) (rw at) v)
  | inr enough ↦ go_on s t MainPc.creating (MainPc.joining 0) at (refl, refl) tt (ground arith) v
]
main_step-Inv s t MainPc.counting at e v = elim (Option-cases (sem_wait s.lot.shm)) [
  | inl none_left ↦ absurd (ground arith)
  | inr (n, got) ↦
      subst Inv (ground arith) (move-Inv s n MainPc.holding (rw at (ground arith)) tt v)
]
main_step-Inv s t MainPc.holding at e v =
    subst Inv (ground arith) (move-Inv s (s.lot.shm + 1) MainPc.creating (rw at (omega arith)) tt v)
main_step-Inv s t (MainPc.joining k) at e v = elim (Bool-cases (ltb k s.thread_count)) [
  | inl more ↦
      go_on s t (MainPc.joining k) (MainPc.joining (k + 1)) at (refl, refl) tt (ground arith) v
  | inr all ↦ go_on s t (MainPc.joining k) MainPc.join_car at (refl, refl) tt (ground arith) v
]
main_step-Inv s t MainPc.join_car at e v =
    go_on s t MainPc.join_car MainPc.join_truck at (refl, refl) (ground arith) (ground arith) v
main_step-Inv s t MainPc.join_truck at e v =
    go_on s t MainPc.join_truck MainPc.finished at (refl, refl) (car_done, ground arith)
      (ground arith) v
  where
    car_done : is_done s.car ≡ true
    car_done = subst (λ m. Joined m s.car s.truck) at v.joined
main_step-Inv s t MainPc.finished at e v = absurd (ground arith)

pub main-Inv : (s t : System) → Inv s → main_step s s.main ≡ some t → Inv t
main-Inv s t v e = main_step-Inv s t s.main refl e v
