-- ===== src/Parking/Tests.antt =====
-- Runs of the car park, and the theorems at states that these runs reach.
use system_related_in_c.Base.{ℕ, ◌+◌, ◌≤◌, ◌<◌, ◌≡◌, ◌≢◌, refl, some, [], get_elem?}
use system_related_in_c.Parking.Lot.{car_vale, truck_vale, side}
use system_related_in_c.Parking.Threads.{OwnerPc}
use system_related_in_c.Parking.System.{MainPc, System, Step}
use system_related_in_c.Parking.Invariant.{owner_entrance, entered_count, charged_count}
use system_related_in_c.Parking.Safety.{
  holders, mutual_exclusion, temporary_lot_bounded, no_vehicle_lost, attendant_leaves_full,
  main_ends_late, call_has_vehicle,
}
use system_related_in_c.Parking.Progress.{owners_progress}
use system_related_in_c.Parking.Schedule.{Reached, of_owner, of_car, of_main, run, repeat, rounds}

-- Owner 0 holds both semaphores, and owner 1 waits at the entrance.
abbrev at_the_gate : Reached
at_the_gate =
    run
      (repeat 3 of_main (repeat 3 of_main (repeat 3 (of_owner 0 3) (repeat 2 (of_owner 1 12) []))))

-- One car has entered, and the attendant has called for a place.
abbrev one_car : Reached
one_car = run (repeat 3 of_main (repeat 9 (of_owner 0 3) (repeat 4 of_car [])))

abbrev whole_run : Reached
whole_run = run (rounds 100 0 (repeat 110 of_main []))

at_the_gate_test : get_elem? at_the_gate.last.owners 0 ≡ some (OwnerPc.locked car_vale)
unfolding run
at_the_gate_test = refl

whole_run_test : whole_run.last.main ≡ MainPc.finished
unfolding run
whole_run_test = refl

mutual_exclusion_example :
    (holders at_the_gate.last ≤ 1)
    × ((i j : ℕ) (p q : OwnerPc)
        → get_elem? at_the_gate.last.owners i ≡ some p
        → get_elem? at_the_gate.last.owners j ≡ some q
        → i ≢ j
        → owner_entrance p + owner_entrance q ≤ 1)
mutual_exclusion_example = mutual_exclusion at_the_gate.reach

temporary_lot_bounded_test :
    (one_car.last.lot.automobile.waiting ≤ 8) × (one_car.last.lot.pickup.waiting ≤ 4)
temporary_lot_bounded_test = temporary_lot_bounded one_car.reach

no_vehicle_lost_example :
    (entered_count car_vale one_car.last.lot
      ≡ (side car_vale one_car.last.lot).waiting + charged_count car_vale one_car.last.lot)
    × (charged_count car_vale one_car.last.lot ≤ 8)
no_vehicle_lost_example = no_vehicle_lost car_vale one_car.reach

attendant_leaves_full_test :
    (charged_count truck_vale whole_run.last.lot ≡ 4)
    × (0 < (side truck_vale whole_run.last.lot).waiting)
unfolding run
attendant_leaves_full_test = attendant_leaves_full truck_vale whole_run.reach refl

main_ends_late_example :
    (9 ≤ entered_count car_vale whole_run.last.lot)
    × (5 ≤ entered_count truck_vale whole_run.last.lot)
unfolding run
main_ends_late_example = main_ends_late whole_run.reach refl

call_has_vehicle_test : 0 < 1
unfolding run
call_has_vehicle_test = call_has_vehicle {n = 1} car_vale one_car.reach refl

owners_progress_example : (t : System) × Step at_the_gate.last t
unfolding run
owners_progress_example = owners_progress 1 (OwnerPc.outside 12) at_the_gate.reach refl (λ e. cc e)
