-- ===== src/Shop/Kitchen/Invariant/ManagerMoves.antt =====
-- What each step of the manager keeps.
use system_related_in_c.Base.{
  ℕ, suc, ◌+◌, ◌≡◌, ◌≢◌, refl, sym, ap, ◌∙◌, true, none, List, [], ◌∷◌, ◌++◌, arith, take, take-all,
  total, total-append,
}
use system_related_in_c.Base.Int.{ℤ, eq_ℤ_refl}
use system_related_in_c.Grades.Text.{Str}
use system_related_in_c.Shop.Kitchen.{Shared, Status, Order, accepted, find_order}
use system_related_in_c.Shop.Kitchen.Cooks.{CookPc}
use system_related_in_c.Shop.Kitchen.Riders.{RiderPc}
use system_related_in_c.Shop.Kitchen.Manager.{ManagerPc}
use system_related_in_c.Shop.Kitchen.Invariant.Slots.{Slots-keep}
use system_related_in_c.Shop.Kitchen.Invariant.Receive.{IsScript}
use system_related_in_c.Shop.Kitchen.Invariant.Accounts.{
  one, is, id_w, cooked_w, delivering_w, delivered_w, moved, manager_w, is_ended, ManagerFresh,
  RiderFresh,
}
use system_related_in_c.Shop.Kitchen.Invariant.Found.{find_order-none}
use system_related_in_c.Shop.Kitchen.Invariant.Manager.{
  Inv, with_order, sys, received-Slots, cooks-same,
}

abbrev pub placed : Shared → ℤ → Shared
placed sh d = record sh {
  delivery_queue = sh.delivery_queue ++ d ∷ [];
  can_deliver = sh.can_deliver + 1;
}

module _ {blank : Order} {all : List Order} (sh : Shared) (cs : List CookPc)
    (rs : List RiderPc) where
  pub received-Inv :
      (c : ℕ) (o : Order) (os : List Order) (bytes : Str) (rest : List Str)
      → o.status ≡ Status.waiting
      → (v : Inv blank all (sys sh cs rs (ManagerPc.receiving c) (bytes ∷ rest)))
      → v.places.future ≡ o ∷ os
      → IsScript blank os rest
      → Inv blank all (sys (with_order sh o) cs rs (ManagerPc.receiving (suc c)) rest)
  received-Inv c o os bytes rest fresh v eq script = record {
    slots = received-Slots sh cs o fresh v.slots;
    accounts = record {
      cooked_eq = λ w. ground (
        arith,
        fresh,
        v.accounts.cooked_eq w,
        cooks-same sh cs o fresh v.slots w,
        total-append (cooked_w w) sh.orders (o ∷ []),
      );
      delivering_eq = λ w. ground (
        arith,
        fresh,
        v.accounts.delivering_eq w,
        total-append (delivering_w w) sh.orders (o ∷ []),
        total-append (delivered_w w) sh.sent (accepted ∷ []),
      );
      moved_eq =
          ground
            (arith, fresh, v.accounts.moved_eq, total-append (delivering_w one) sh.orders (o ∷ []));
    };
    places = record {
      future = os;
      ids_eq = λ w. omega (
        arith,
        v.places.ids_eq w,
        ap (total (id_w w)) eq,
        total-append (id_w w) sh.orders (o ∷ []),
      );
      manager_fresh = (omega (arith, v.places.manager_fresh), script);
      closed = v.places.closed;
      riders_fresh = λ k q at. old q (v.places.riders_fresh k q at);
    };
  }
    where
      old : (q : RiderPc) → RiderFresh sh q → RiderFresh (with_order sh o) q
      old (RiderPc.asleep k) f = f
      old RiderPc.out f = f
      old q f = ground arith

  pub done-Inv :
      (c : ℕ) (bytes : Str) (rest : List Str)
      → (v : Inv blank all (sys sh cs rs (ManagerPc.receiving c) (bytes ∷ rest)))
      → v.places.future ≡ []
      → Inv blank all (
          sys
            (record sh { order_counter_global = c; cook_counter = c })
            cs
            rs
            (ManagerPc.collecting 0)
            rest)
  done-Inv c bytes rest v none_left = record {
    slots =
        Slots-keep sh (record sh { order_counter_global = c; cook_counter = c }) cs refl refl
          v.places.manager_fresh.0 v.slots;
    accounts = record {
      cooked_eq = v.accounts.cooked_eq;
      delivering_eq = v.accounts.delivering_eq;
      moved_eq = v.accounts.moved_eq;
    };
    places = record {
      future = [];
      ids_eq = λ w. omega (arith, ap (total (id_w w)) none_left, v.places.ids_eq w);
      manager_fresh = (refl, omega arith);
      closed = v.places.closed;
      riders_fresh = λ k q at. old q (v.places.riders_fresh k q at);
    };
  }
    where
      old :
          (q : RiderPc)
          → RiderFresh sh q
          → RiderFresh (record sh { order_counter_global = c; cook_counter = c }) q
      old (RiderPc.asleep k) f = f
      old RiderPc.out f = f
      old q f = ground arith

  pub ended-Inv :
      (c : ℕ) (rest : List Str)
      → c ≡ sh.order_counter_global
      → (v : Inv blank all (sys sh cs rs (ManagerPc.collecting c) rest))
      → Inv blank all (
          sys
            (record sh { no_more_orders = true; exit_from_dummy = true })
            cs
            rs
            ManagerPc.ended
            rest)
  ended-Inv c rest eq v = record {
    slots =
        Slots-keep sh (record sh { no_more_orders = true; exit_from_dummy = true }) cs refl refl
          refl v.slots;
    accounts = record {
      cooked_eq = v.accounts.cooked_eq;
      delivering_eq = v.accounts.delivering_eq;
      moved_eq = sym eq ∙ v.accounts.moved_eq;
    };
    places = record {
      future = [];
      ids_eq = λ w. omega (arith, ap (total (id_w w)) v.places.manager_fresh.0, v.places.ids_eq w);
      manager_fresh = refl;
      closed = refl;
      riders_fresh = λ k q at. old q (v.places.riders_fresh k q at);
    };
  }
    where
      old :
          (q : RiderPc)
          → RiderFresh sh q
          → RiderFresh (record sh { no_more_orders = true; exit_from_dummy = true }) q
      old (RiderPc.asleep k) f = f
      old RiderPc.out f = (refl, f.1)
      old q f = ground arith

  -- The manager goes on where nothing that is shared has changed.
  pub quiet-Inv :
      (m m' : ManagerPc) (rest : List Str)
      → ((w : ℤ → ℕ) → manager_w w m' ≡ manager_w w m)
      → moved sh m' ≡ moved sh m
      → is_ended m' ≡ is_ended m
      → (v : Inv blank all (sys sh cs rs m rest)) → ManagerFresh blank sh rest v.places.future m'
      → Inv blank all (sys sh cs rs m' rest)
  quiet-Inv m m' rest hw hm hn v fresh = record {
    slots = v.slots;
    accounts = record {
      cooked_eq = λ w. omega (arith, hw w, v.accounts.cooked_eq w);
      delivering_eq = v.accounts.delivering_eq;
      moved_eq = hm ∙ v.accounts.moved_eq;
    };
    places = record {
      future = v.places.future;
      ids_eq = v.places.ids_eq;
      manager_fresh = fresh;
      closed = v.places.closed ∙ sym hn;
      riders_fresh = v.places.riders_fresh;
    };
  }

  -- It takes the oldest order that is ready.
  pub holding-Inv :
      (c : ℕ) (d : ℤ) (ds : List ℤ) (rest : List Str)
      → sh.ready_order_queue ≡ d ∷ ds
      → (v : Inv blank all (sys sh cs rs (ManagerPc.polling c) rest))
      → Inv blank all
          (sys (record sh { ready_order_queue = ds }) cs rs (ManagerPc.holding c d) rest)
  holding-Inv c d ds rest eq v = record {
    slots = Slots-keep sh (record sh { ready_order_queue = ds }) cs refl refl refl v.slots;
    accounts = record {
      cooked_eq = λ w. omega (arith, ap (total w) eq, v.accounts.cooked_eq w);
      delivering_eq = v.accounts.delivering_eq;
      moved_eq = v.accounts.moved_eq;
    };
    places = record {
      future = v.places.future;
      ids_eq = v.places.ids_eq;
      manager_fresh = v.places.manager_fresh;
      closed = v.places.closed;
      riders_fresh = λ k q at. old q (v.places.riders_fresh k q at);
    };
  }
    where
      old : (q : RiderPc) → RiderFresh sh q → RiderFresh (record sh { ready_order_queue = ds }) q
      old (RiderPc.asleep k) f = f
      old RiderPc.out f = f
      old q f = ground arith

  pub token-Inv :
      (c : ℕ) (d : ℤ) (n : ℕ) (rest : List Str)
      → sh.cook_counter ≡ suc n
      → (v : Inv blank all (sys sh cs rs (ManagerPc.holding c d) rest))
      → Inv blank all (sys (record sh { cook_counter = n }) cs rs (ManagerPc.placing c d) rest)
  token-Inv c d n rest eq v = record {
    slots = Slots-keep sh (record sh { cook_counter = n }) cs refl refl refl v.slots;
    accounts = record {
      cooked_eq = v.accounts.cooked_eq;
      delivering_eq = v.accounts.delivering_eq;
      moved_eq = v.accounts.moved_eq;
    };
    places = record {
      future = v.places.future;
      ids_eq = v.places.ids_eq;
      manager_fresh = (v.places.manager_fresh.0, omega (arith, v.places.manager_fresh.1));
      closed = v.places.closed;
      riders_fresh = λ k q at. old q (v.places.riders_fresh k q at);
    };
  }
    where
      old : (q : RiderPc) → RiderFresh sh q → RiderFresh (record sh { cook_counter = n }) q
      old (RiderPc.asleep k) f = f
      old RiderPc.out f = f
      old q f = ground arith

  pub placed-Inv :
      (c : ℕ) (d a : ℤ) (rest : List Str)
      → a ≡ d
      → (v : Inv blank all (sys sh cs rs (ManagerPc.placing c d) rest))
      → Inv blank all (sys (placed sh a) cs rs (ManagerPc.collecting (suc c)) rest)
  placed-Inv c d a rest eq v = record {
    slots = Slots-keep sh (placed sh a) cs refl refl refl v.slots;
    accounts = record {
      cooked_eq = λ w.
          omega (arith, ap w eq, total-append w sh.delivery_queue (a ∷ []), v.accounts.cooked_eq w);
      delivering_eq = v.accounts.delivering_eq;
      moved_eq = omega (arith, total-append one sh.delivery_queue (a ∷ []), v.accounts.moved_eq);
    };
    places = record {
      future = v.places.future;
      ids_eq = v.places.ids_eq;
      manager_fresh = (v.places.manager_fresh.0, omega (arith, v.places.manager_fresh.1));
      closed = v.places.closed;
      riders_fresh = λ k q at. old q (v.places.riders_fresh k q at);
    };
  }
    where
      -- Who sleeps has been woken, and nobody is out.
      old : (q : RiderPc) → RiderFresh sh q → RiderFresh (placed sh a) q
      old (RiderPc.asleep k) f = (omega (arith, f.0), λ h. absurd (omega (arith, f.0, h)))
      old RiderPc.out f = absurd (ground (arith, f.0, v.places.closed))
      old q f = ground arith

  -- The order is found: it is cooked.
  pub placing-found :
      (c : ℕ) (d : ℤ) (rest : List Str)
      → Inv blank all (sys sh cs rs (ManagerPc.placing c d) rest)
      → find_order d 0 (take sh.order_counter_global sh.orders) ≢ none
  placing-found c d rest v missed =
      let nothing = find_order-none d 0 sh.orders (
        rw (take-all sh.order_counter_global sh.orders (omega (arith, v.slots.counter_eq))) at
          missed) in
      absurd (ground (arith, eq_ℤ_refl d, nothing, v.accounts.cooked_eq (is d)))
