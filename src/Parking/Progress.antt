-- ===== src/Parking/Progress.antt =====
-- The car park does not deadlock: as long as an owner is under way, some thread can go on.
use system_related_in_c.Base.{
  ℕ, ◌≤◌, ◌≡◌, ◌≢◌, ◌⊎◌, inl, inr, some, none, List, get_elem?, set, total, arith, Option-cases,
  pos-of-total, dec_lt,
}
use system_related_in_c.Parking.Lot.{ValeType, car_vale, truck_vale, Lot}
use system_related_in_c.Parking.Threads.{OwnerPc, AttendantPc, owner_step, attendant_step}
use system_related_in_c.Parking.System.{
  MainPc, System, main_step, Step, owner, car_attendant, truck_attendant, main_thread, Reach,
}
use system_related_in_c.Parking.Invariant.{
  owner_shm, attendant_shm, main_shm, owner_entrance, SideInv, Inv, Reach-Inv,
}

-- An owner that cannot go on has left, or waits for one of the two semaphores, at 0.
abbrev Waits : Lot → OwnerPc → Type 0
Waits l p =
    (p ≡ OwnerPc.gone)
    ⊎ ((l.entrance ≡ 0) × (owner_entrance p ≡ 0))
    ⊎ ((l.shm ≡ 0) × (owner_shm p ≡ 0))

owner-Waits : (l : Lot) (p : OwnerPc) → owner_step 0 l p ≡ none → Waits l p
unfolding owner_step
owner-Waits l OwnerPc.start e = ground arith
owner-Waits l p e = ground arith

holder-goes_on : (l : Lot) (p : OwnerPc) → 1 ≤ owner_shm p → ¬ Waits l p
holder-goes_on l OwnerPc.start h w = ground arith
holder-goes_on l p h w = ground arith

gone-light : {p : OwnerPc} → p ≡ OwnerPc.gone → owner_entrance p ≡ 0
gone-light e = rw e

attendant-goes_on :
    (t : ValeType) (l : Lot) (owners : List OwnerPc) (a : AttendantPc)
    → SideInv t l owners a
    → 1 ≤ attendant_shm a
    → attendant_step t l a ≢ none
unfolding attendant_step
attendant-goes_on car_vale l owners AttendantPc.idle v h e = ground arith
attendant-goes_on truck_vale l owners AttendantPc.idle v h e = ground arith
attendant-goes_on car_vale l owners a v h e = ground arith
attendant-goes_on truck_vale l owners a v h e = ground arith

main-goes_on : (s : System) (m : MainPc) → 1 ≤ main_shm m → main_step s m ≢ none
unfolding main_step
main-goes_on s MainPc.creating h e = absurd (omega arith)
main-goes_on s m h e = ground arith

module _ (s : System) where
  abbrev pub Moves : Type 0
  Moves = (t : System) × Step s t

  owner-Moves : (i : ℕ) (p : OwnerPc) → get_elem? s.owners i ≡ some p → Waits s.lot p ⊎ Moves
  owner-Moves i p at = elim (Option-cases (owner_step 0 s.lot p)) [
    | inl e ↦ inl (owner-Waits s.lot p e)
    | inr (r, e) ↦
        let step : Step s (record s { lot = r.0; owners = set s.owners i r.1 }) = owner i 0 at e in
        inr (_, step)
  ]

  car-Moves : attendant_step car_vale s.lot s.car ≢ none → Moves
  car-Moves free = elim (Option-cases (attendant_step car_vale s.lot s.car)) [
    | inl e ↦ absurd (free e)
    | inr (r, e) ↦
        let step : Step s (record s { lot = r.0; car = r.1 }) = car_attendant e in (_, step)
  ]

  truck-Moves : attendant_step truck_vale s.lot s.truck ≢ none → Moves
  truck-Moves free = elim (Option-cases (attendant_step truck_vale s.lot s.truck)) [
    | inl e ↦ absurd (free e)
    | inr (r, e) ↦
        let step : Step s (record s { lot = r.0; truck = r.1 }) = truck_attendant e in (_, step)
  ]

  main-Moves : main_step s s.main ≢ none → Moves
  main-Moves free = elim (Option-cases (main_step s s.main)) [
    | inl e ↦ absurd (free e)
    | inr (t, e) ↦ (t, main_thread e)
  ]

  -- Who holds `sem_shm` goes on.
  shm-Moves : Inv s → s.lot.shm ≡ 0 → Moves
  shm-Moves v e = elim (dec_lt 0 (total owner_shm s.owners)) [
    | yes p ↦
        let (i, q, at, heavy) = pos-of-total owner_shm s.owners p in
        elim (owner-Moves i q at) [ inl w ↦ absurd (holder-goes_on s.lot q heavy w) | inr m ↦ m ]
    | no p ↦ elim (dec_lt 0 (attendant_shm s.car)) [
      | yes c ↦ car-Moves (attendant-goes_on car_vale s.lot s.owners s.car v.cars c)
      | no c ↦ elim (dec_lt 0 (attendant_shm s.truck)) [
        | yes t ↦ truck-Moves (attendant-goes_on truck_vale s.lot s.owners s.truck v.trucks t)
        | no t ↦ main-Moves (main-goes_on s s.main (omega (arith, v.locks)))
      ]
    ]
  ]

  -- So does an owner that holds `sem_entrance`, unless it waits for `sem_shm`.
  entrance-Moves : Inv s → s.lot.entrance ≡ 0 → Moves
  entrance-Moves v e =
      let (j, q, at, heavy) = pos-of-total owner_entrance s.owners (omega (arith, v.locks)) in
      elim (owner-Moves j q at) [
        | inl (inl g) ↦ absurd (omega (arith, gone-light g))
        | inl (inr (inl w)) ↦ absurd (omega arith)
        | inl (inr (inr w)) ↦ shm-Moves v w.0
        | inr m ↦ m
      ]

-- In every state that the threads reach: if there is an owner that has not left, some thread can
-- make a step.
pub owners_progress :
    {s : System} (i : ℕ) (p : OwnerPc)
    → Reach s
    → get_elem? s.owners i ≡ some p
    → p ≢ OwnerPc.gone
    → (t : System) × Step s t
owners_progress {s} i p r at under_way = elim (owner-Moves s i p at) [
  | inl (inl g) ↦ absurd (under_way g)
  | inl (inr (inl w)) ↦ entrance-Moves s (Reach-Inv r) w.0
  | inl (inr (inr w)) ↦ shm-Moves s (Reach-Inv r) w.0
  | inr m ↦ m
]
