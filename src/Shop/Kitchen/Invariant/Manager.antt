-- ===== src/Shop/Kitchen/Invariant/Manager.antt =====
-- What holds in every state, and what a new order changes.
use system_related_in_c.Base.{
  ℕ, suc, ◌≤◌, ◌≡◌, ap, subst, inl, inr, Bool, List, [], ◌∷◌, ◌++◌, arith, length-append, total,
  total-ext, total-zero, get_elem?-append_cases, get_elem?-append_lt,
}
use system_related_in_c.Base.Int.{ℤ}
use system_related_in_c.Grades.Text.{Str}
use system_related_in_c.Shop.Kitchen.{Shared, Status, Order, accepted}
use system_related_in_c.Shop.Kitchen.Cooks.{Phase, CookPc}
use system_related_in_c.Shop.Kitchen.Riders.{RiderPc}
use system_related_in_c.Shop.Kitchen.Manager.{ManagerPc}
use system_related_in_c.Shop.Kitchen.System.{System}
use system_related_in_c.Shop.Kitchen.Invariant.Slots.{
  Slot, Slots, Below, has, is_unbaked, is_baking,
}
use system_related_in_c.Shop.Kitchen.Invariant.Accounts.{cook_w, weight_of, Accounts, Places}

pub record Inv (blank : Order) (all : List Order) (s : System) : Type 0 where
  pub slots : Slots s.shared s.cooks
  pub accounts : Accounts s
  pub places : Places blank all s

abbrev pub with_order : Shared → Order → Shared
with_order s o = record s {
  orders = s.orders ++ o ∷ [];
  order_counter_global = suc s.order_counter_global;
  sent = s.sent ++ accepted ∷ [];
}

-- A new order.
module _ (s : Shared) (cooks : List CookPc) (o : Order) (fresh : o.status ≡ Status.waiting)
    (v : Slots s cooks) where
  -- No cook has an order from `next` on.
  none-has : (f : Phase → Bool) (i : ℕ) → s.next ≤ i → total (has f i) cooks ≡ 0
  none-has f i le = total-zero (has f i) cooks λ k p at. not_this p (v.current_lt k p at)
    where
      not_this : (p : CookPc) → Below s.next p → has f i p ≡ 0
      not_this (CookPc.busy ph j) b = ground arith
      not_this p b = ground arith

  pub received-Slots : Slots (with_order s o) cooks
  received-Slots = record {
    counter_eq = omega (arith, v.counter_eq, length-append {0} s.orders (o ∷ []));
    next_le = omega (arith, v.next_le, length-append {0} s.orders (o ∷ []));
    slots = λ i q at. elim (get_elem?-append_cases s.orders o q i at) [
      | inl last ↦ subst (Slot (with_order s o) cooks i) last.1 (record {
        unbaked =
            ground
              (arith, none-has is_unbaked i (omega (arith, v.next_le, last.0)), last.0, v.next_le);
        baking = rw fresh (none-has is_baking i (omega (arith, v.next_le, last.0)));
        untouched = λ le. fresh;
      })
      | inr old ↦
          let w = v.slots i q old in
          record { unbaked = w.unbaked; baking = w.baking; untouched = w.untouched }
    ];
    current_lt = v.current_lt;
  }

  pub cooks-same :
      (w : ℤ → ℕ) → total (cook_w w (s.orders ++ o ∷ [])) cooks ≡ total (cook_w w s.orders) cooks
  cooks-same w =
      total-ext (cook_w w (s.orders ++ o ∷ [])) (cook_w w s.orders) cooks
        λ k p at. each p (v.current_lt k p at)
    where
      each : (p : CookPc) → Below s.next p → cook_w w (s.orders ++ o ∷ []) p ≡ cook_w w s.orders p
      each (CookPc.busy Phase.ready i) b =
          ap (weight_of w) (get_elem?-append_lt s.orders o i (omega (arith, v.next_le)))
      each p b = ground arith

abbrev pub sys : Shared → List CookPc → List RiderPc → ManagerPc → List Str → System
sys sh cs rs m rest = record { shared = sh; cooks = cs; riders = rs; manager = m; rest = rest }
