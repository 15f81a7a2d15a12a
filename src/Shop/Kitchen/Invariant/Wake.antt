-- ===== src/Shop/Kitchen/Invariant/Wake.antt =====
-- A thread that wakes in `pthread_cond_wait` without a signal leaves the invariant as it is.
use system_related_in_c.Base.{
  ℕ, ◌≡◌, refl, ap, ◌∙◌, subst, inl, inr, some, List, arith, get_elem?, set, get_elem?-set_cases,
}
use system_related_in_c.Shop.Kitchen.{Order}
use system_related_in_c.Shop.Kitchen.Riders.{RiderPc}
use system_related_in_c.Shop.Kitchen.Manager.{ManagerPc}
use system_related_in_c.Shop.Kitchen.System.{System, Wake}
use system_related_in_c.Shop.Kitchen.Invariant.Accounts.{manager_w, moved, is_ended, ManagerFresh}
use system_related_in_c.Shop.Kitchen.Invariant.Manager.{Inv}
use system_related_in_c.Shop.Kitchen.Invariant.RiderAccounts.{kept-Accounts}

module _ {blank : Order} {all : List Order} (s : System) (v : Inv blank all s) where
  rider-wakes :
      (k j : ℕ)
      → get_elem? s.riders k ≡ some (RiderPc.asleep j)
      → Inv blank all (record s { riders = set s.riders k RiderPc.checking })
  rider-wakes k j at = record {
    slots = v.slots;
    accounts =
        kept-Accounts s s.shared k (RiderPc.asleep j) RiderPc.checking v.slots v.accounts
          (refl, refl, refl, refl, refl, refl, refl, refl) at refl (λ w. refl) (λ w. refl);
    places = record {
      future = v.places.future;
      ids_eq = v.places.ids_eq;
      manager_fresh = v.places.manager_fresh;
      closed = v.places.closed;
      riders_fresh = λ i q found. elim (get_elem?-set_cases s.riders k i RiderPc.checking q found) [
        | inl eq ↦ rw eq tt
        | inr old ↦ v.places.riders_fresh i q old.1
      ];
    };
  }

  manager-wakes :
      (c k : ℕ)
      → s.manager ≡ ManagerPc.asleep c k
      → Inv blank all (record s { manager = ManagerPc.polling c })
  manager-wakes c k at = record {
    slots = v.slots;
    accounts = record {
      cooked_eq = λ w. omega (arith, v.accounts.cooked_eq w, ap (manager_w w) at);
      delivering_eq = v.accounts.delivering_eq;
      moved_eq = omega (arith, v.accounts.moved_eq, ap (moved s.shared) at);
    };
    places = record {
      future = v.places.future;
      ids_eq = v.places.ids_eq;
      manager_fresh =
          let f =
            subst (ManagerFresh blank s.shared s.rest v.places.future) at v.places.manager_fresh in
          (f.0, f.1);
      closed = v.places.closed ∙ ap is_ended at;
      riders_fresh = v.places.riders_fresh;
    };
  }

  pub wake-Inv : (t : System) → Wake s t → Inv blank all t
  wake-Inv t (Wake.rider_wakes k {j} at) = rider-wakes k j at
  wake-Inv t (Wake.manager_wakes {c} {k} at) = manager-wakes c k at
