-- ===== src/Shop/Kitchen/Invariant/Main.antt =====
-- Every step of every thread keeps the invariant.
use system_related_in_c.Base.{ℕ, refl, subst, List, [], arith, total-repeat, get_elem?-repeat}
use system_related_in_c.Grades.Text.{Str}
use system_related_in_c.Shop.Kitchen.{Order}
use system_related_in_c.Shop.Kitchen.Cooks.{CookPc}
use system_related_in_c.Shop.Kitchen.Riders.{RiderPc}
use system_related_in_c.Shop.Kitchen.System.{System, Step, Reach, init}
use system_related_in_c.Shop.Kitchen.Invariant.Slots.{Below}
use system_related_in_c.Shop.Kitchen.Invariant.CookSlots.{cook-Slots}
use system_related_in_c.Shop.Kitchen.Invariant.CookAccounts.{cook-Accounts}
use system_related_in_c.Shop.Kitchen.Invariant.CookPlaces.{cook-Places}
use system_related_in_c.Shop.Kitchen.Invariant.Receive.{IsScript}
use system_related_in_c.Shop.Kitchen.Invariant.Accounts.{
  one, cook_w, searching_w, carrying_w, RiderFresh,
}
use system_related_in_c.Shop.Kitchen.Invariant.Manager.{Inv}
use system_related_in_c.Shop.Kitchen.Invariant.RiderSlots.{rider-Slots}
use system_related_in_c.Shop.Kitchen.Invariant.RiderAccounts.{rider-Accounts}
use system_related_in_c.Shop.Kitchen.Invariant.RiderPlaces.{rider-Places}
use system_related_in_c.Shop.Kitchen.Invariant.ManagerStep.{manager-Inv}
use system_related_in_c.Shop.Kitchen.Invariant.Sender.{sender-Inv}
use system_related_in_c.Shop.Kitchen.Invariant.Wake.{wake-Inv}

Step-Inv :
    {blank : Order} {all : List Order} {ids : ℕ → ℕ} (s t : System)
    → Inv blank all s
    → Step blank ids s t
    → Inv blank all t
Step-Inv s _ v (Step.cook k me {p} {p'} {u} at e) = record {
  slots = cook-Slots me s.shared u s.cooks k p p' at e v.slots;
  accounts = cook-Accounts me s u k p p' at e v.slots v.accounts;
  places = cook-Places me s u k p p' e v.places;
}
Step-Inv {blank} {all} {ids} s _ v (Step.rider k {p} {p'} {u} at e) = record {
  slots = rider-Slots (ids k) s.shared u s.cooks p p' e v.slots;
  accounts = rider-Accounts (ids k) s u k p p' at e v.slots v.accounts;
  places = rider-Places (ids k) s u k p p' at e v.slots v.places;
}
Step-Inv s _ v (Step.manager {u} {rest} {m} e) =
    manager-Inv s.shared s.cooks s.riders u rest m s.manager s.rest e v
Step-Inv s _ v (Step.sender {u} e) = sender-Inv s u e v

init-Inv :
    {blank : Order} {all : List Order} (ids : ℕ → ℕ) (n m : ℕ) (texts : List Str)
    → IsScript blank all texts
    → Inv blank all (init ids n m texts)
init-Inv {blank} {all} ids n m texts script = record {
  slots = record {
    counter_eq = refl;
    next_le = omega arith;
    slots = λ i o at. absurd (ground arith);
    current_lt = λ k p at. subst (Below 0) (get_elem?-repeat n k CookPc.idle p at) tt;
  };
  accounts = record {
    cooked_eq = λ w. omega (
      arith,
      total-repeat (cook_w w []) CookPc.idle n,
      total-repeat (searching_w w) RiderPc.checking m,
    );
    delivering_eq = λ w. omega (arith, total-repeat (carrying_w w) RiderPc.checking m);
    moved_eq = omega (arith, total-repeat (searching_w one) RiderPc.checking m);
  };
  places = record {
    future = all;
    ids_eq = λ w. omega arith;
    manager_fresh = (refl, script);
    closed = refl;
    riders_fresh = λ k q at.
        subst (RiderFresh (init ids n m texts).shared) (get_elem?-repeat m k RiderPc.checking q at)
          tt;
  };
}

pub Reach-Inv :
    {blank : Order} {all : List Order} {ids : ℕ → ℕ} {n m : ℕ} {texts : List Str} {s : System}
    → IsScript blank all texts
    → Reach blank ids n m texts s
    → Inv blank all s
Reach-Inv {blank} {all} {ids} {n} {m} {texts} script Reach.here = init-Inv ids n m texts script
Reach-Inv script (Reach.next {s} {t} r h) = Step-Inv s t (Reach-Inv script r) h
Reach-Inv script (Reach.woken {s} {t} r h) = wake-Inv s (Reach-Inv script r) t h
