-- ===== src/Parking/System.antt =====
-- `main` of shared_mem_and_threads/main.c and the threads that it creates, interleaved in any order.
use system_related_in_c.Base.{
  ℕ, ◌+◌, ◌≡◌, Bool, true, false, Option, none, some, List, [], ◌∷◌, ◌++◌, ltb, if◌then◌else◌,
  get_elem?, set,
}
use system_related_in_c.Parking.Lot.{car_vale, truck_vale, Lot, fresh_lot, sem_wait, sem_post}
use system_related_in_c.Parking.Threads.{OwnerPc, AttendantPc, owner_step, attendant_step}

abbrev pub num_threads : ℕ
num_threads = 100

-- Where `main` stands.
pub data MainPc : Type 0 where
  creating : MainPc  -- the head of the loop
  counting : MainPc  -- before sem_wait(sem_shm)
  holding : MainPc  -- before sem_post(sem_shm)
  joining : ℕ → MainPc  -- before pthread_join(car_threads[t])
  join_car : MainPc  -- before pthread_join(vale_thread[0])
  join_truck : MainPc  -- before pthread_join(vale_thread[1])
  finished : MainPc

pub record System : Type 0 where
  pub lot : Lot
  pub owners : List OwnerPc
  pub car : AttendantPc
  pub truck : AttendantPc
  pub main : MainPc
  pub thread_count : ℕ

-- Both attendants run, and no owner has been created.
abbrev pub init : System
init = record {
  lot = fresh_lot;
  owners = [];
  car = AttendantPc.idle;
  truck = AttendantPc.idle;
  main = creating;
  thread_count = 0;
}

abbrev pub is_gone : Option OwnerPc → Bool
is_gone (some OwnerPc.gone) = true
is_gone _ = false

abbrev pub is_done : AttendantPc → Bool
is_done AttendantPc.done = true
is_done _ = false

-- A step of `main`, if it does not wait. The owners' `*(parameter->thread_count)--` moves their
-- pointer and leaves `thread_count` as it is.
unfoldable pub main_step : System → MainPc → Option System
main_step s creating =
    if ltb s.thread_count num_threads
    then some (record s {
      owners = s.owners ++ OwnerPc.start ∷ [];
      thread_count = s.thread_count + 1;
      main = counting;
    })
    else some (record s { main = joining 0 })
main_step s counting = elim (sem_wait s.lot.shm) [
  | none ↦ none
  | some n ↦ some (record s { lot = record s.lot { shm = n }; main = holding })
]
main_step s holding =
    some (record s { lot = record s.lot { shm = sem_post s.lot.shm }; main = creating })
main_step s (joining t) =
    if ltb t s.thread_count
    then (if is_gone (get_elem? s.owners t)
        then some (record s { main = joining (t + 1) })
        else none)
    else some (record s { main = join_car })
main_step s join_car = if is_done s.car then some (record s { main = join_truck }) else none
main_step s join_truck = if is_done s.truck then some (record s { main = finished }) else none
main_step s finished = none

-- One thread makes a step.
pub data Step (s : System) : System → Type 0 where
  owner :
      (i random : ℕ) {p p' : OwnerPc} {l : Lot}
      → get_elem? s.owners i ≡ some p
      → owner_step random s.lot p ≡ some (l, p')
      → Step s (record s { lot = l; owners = set s.owners i p' })
  car_attendant :
      {l : Lot} {p : AttendantPc}
      → attendant_step car_vale s.lot s.car ≡ some (l, p)
      → Step s (record s { lot = l; car = p })
  truck_attendant :
      {l : Lot} {p : AttendantPc}
      → attendant_step truck_vale s.lot s.truck ≡ some (l, p)
      → Step s (record s { lot = l; truck = p })
  main_thread : {t : System} → main_step s s.main ≡ some t → Step s t

pub data Reach : System → Type 0 where
  here : Reach init
  next : {s t : System} → Reach s → Step s t → Reach t
