-- ===== src/Shop/Kitchen/Invariant/Slots.antt =====
-- Which cook has which order, by the status of the order.
use mathlib.Core.Option.{some-injective}
use system_related_in_c.Base.{
  Option-cases, dec_lt, lt→ltb, ℕ, suc, ◌≤◌, ◌<◌, ◌≡◌, refl, sym, ap, ◌∙◌, subst, inl, inr, Bool,
  true, false, ◌&&◌, some, List, arith, get_elem?, set, length, total, if◌then◌else◌, ltb, ◌==◌,
}
use system_related_in_c.Shop.Kitchen.{Shared, Status, Order}
use system_related_in_c.Shop.Kitchen.Cooks.{Phase, CookPc, cook_step, cook_order}

abbrev pub is_unbaked : Phase → Bool
is_unbaked Phase.taken = true
is_unbaked Phase.paddled = true
is_unbaked Phase.in_oven = true
is_unbaked Phase.at_entrance = true
is_unbaked _ = false

abbrev pub is_baking : Phase → Bool
is_baking Phase.baking = true
is_baking Phase.opened = true
is_baking Phase.left_oven = true
is_baking Phase.put_back = true
is_baking Phase.at_exit = true
is_baking Phase.out_of_oven = true
is_baking _ = false

-- 1 where the cook has the order `i` in such a phase.
abbrev pub has : (Phase → Bool) → ℕ → CookPc → ℕ
has f i (CookPc.busy ph j) = if f ph && (j == i) then 1 else 0
has f i _ = 0

abbrev pub is_waiting : Status → Bool
is_waiting Status.waiting = true
is_waiting _ = false

abbrev pub is_cooking : Status → Bool
is_cooking Status.cooking = true
is_cooking _ = false

-- The cook's order is one of the first `n`.
abbrev pub Below : ℕ → CookPc → Type 0
Below n (CookPc.busy ph i) = i < n
Below n _ = Unit

pub record Slot (s : Shared) (cooks : List CookPc) (i : ℕ) (o : Order) : Type 0 where
  pub unbaked :
      total (has is_unbaked i) cooks ≡ (if is_waiting o.status && ltb i s.next then 1 else 0)
  pub baking : total (has is_baking i) cooks ≡ (if is_cooking o.status then 1 else 0)
  pub untouched : s.next ≤ i → o.status ≡ Status.waiting

pub record Slots (s : Shared) (cooks : List CookPc) : Type 0 where
  pub counter_eq : s.order_counter_global ≡ length s.orders
  pub next_le : s.next ≤ length s.orders
  pub slots : (i : ℕ) (o : Order) → get_elem? s.orders i ≡ some o → Slot s cooks i o
  pub current_lt : (k : ℕ) (p : CookPc) → get_elem? cooks k ≡ some p → Below s.next p

-- Only the orders, `next` and the counter matter.
pub Slots-keep :
    (s u : Shared) (cooks : List CookPc)
    → u.orders ≡ s.orders
    → u.next ≡ s.next
    → u.order_counter_global ≡ s.order_counter_global
    → Slots s cooks
    → Slots u cooks
Slots-keep s u cooks eo en ec v = record {
  counter_eq = ec ∙ v.counter_eq ∙ ap length (sym eo);
  next_le = rw (eo, en) v.next_le;
  slots = λ i o found.
      let old = v.slots i o (rw eo at found) in
      record {
        unbaked = rw en old.unbaked;
        baking = old.baking;
        untouched = λ le. old.untouched (omega (arith, en));
      };
  current_lt = rw en v.current_lt;
}

-- What a step of a cook does to the orders, by its place.
pub data Effect (s u : Shared) : CookPc → CookPc → Type 0 where
  -- It goes on with what it has.
  moves :
      {p p' : CookPc}
      → u.orders ≡ s.orders
      → u.next ≡ s.next
      → ((i : ℕ) → has is_unbaked i p' ≡ has is_unbaked i p)
      → ((i : ℕ) → has is_baking i p' ≡ has is_baking i p)
      → ((n : ℕ) → Below n p → Below n p')
      → Effect s u p p'
  takes :
      u.orders ≡ s.orders
      → u.next ≡ suc s.next
      → s.next < s.order_counter_global
      → Effect s u CookPc.entered (CookPc.busy Phase.taken s.next)
  starts :
      (i : ℕ) (o : Order)
      → get_elem? s.orders i ≡ some o
      → u.orders ≡ set s.orders i (record o { status = Status.cooking })
      → u.next ≡ s.next
      → Effect s u (CookPc.busy Phase.at_entrance i) (CookPc.busy Phase.baking i)
  finishes :
      (i : ℕ) (o : Order)
      → get_elem? s.orders i ≡ some o
      → u.orders ≡ set s.orders i (record o { status = Status.cooked })
      → u.next ≡ s.next
      → Effect s u (CookPc.busy Phase.out_of_oven i) (CookPc.busy Phase.ready i)

via :
    {s : Shared} (p : CookPc) {r r' : Shared × CookPc}
    → some r ≡ some r'
    → Effect s r.0 p r.1
    → Effect s r'.0 p r'.1
via {s} p e c = subst (λ r. Effect s r.0 p r.1) (some-injective _ _ e) c

module _ (me : ℕ) (s : Shared) {u : Shared} where
  pub cook-counter :
      (p p' : CookPc)
      → cook_step me s p ≡ some (u, p')
      → u.order_counter_global ≡ s.order_counter_global
  unfolding cook_step cook_order
  cook-counter CookPc.idle p' e = ground arith
  cook-counter (CookPc.busy Phase.taken i) p' e = ground arith
  cook-counter p p' e = ground arith

  pub cook-Effect : (p p' : CookPc) → cook_step me s p ≡ some (u, p') → Effect s u p p'
  unfolding cook_step cook_order
  cook-Effect CookPc.idle p' e =
      moves (ground arith) (ground arith) (λ i. ground arith) (λ i. ground arith)
        (λ n b. ground arith)
  cook-Effect CookPc.entered p' e = elim (dec_lt s.next s.order_counter_global) [
    | yes lt ↦ via CookPc.entered (rw (lt→ltb lt) at e) (takes refl refl lt)
    | no ge ↦
        moves (ground arith) (ground arith) (λ i. ground arith) (λ i. ground arith)
          (λ n b. ground arith)
  ]
  cook-Effect CookPc.out p' e = absurd (ground arith)
  cook-Effect (CookPc.busy Phase.taken i) p' e =
      moves (ground arith) (ground arith) (λ i. ground arith) (λ i. ground arith)
        (λ n b. ground arith)
  cook-Effect (CookPc.busy Phase.at_entrance i) p' e = elim (Option-cases (get_elem? s.orders i)) [
    | inl none_at ↦ absurd (ground (arith, none_at))
    | inr (o, at) ↦ via (CookPc.busy Phase.at_entrance i) (rw at at e) (starts i o at refl refl)
  ]
  cook-Effect (CookPc.busy Phase.out_of_oven i) p' e = elim (Option-cases (get_elem? s.orders i)) [
    | inl none_at ↦ absurd (ground (arith, none_at))
    | inr (o, at) ↦ via (CookPc.busy Phase.out_of_oven i) (rw at at e) (finishes i o at refl refl)
  ]
  cook-Effect (CookPc.busy ph i) p' e =
      moves (ground arith) (ground arith) (λ i. ground arith) (λ i. ground arith)
        (λ n b. ground arith)
