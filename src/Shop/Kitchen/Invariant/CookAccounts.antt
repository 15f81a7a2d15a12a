-- ===== src/Shop/Kitchen/Invariant/CookAccounts.antt =====
-- A step of a cook keeps the accounts.
use mathlib.Core.Option.{some-injective}
use system_related_in_c.Base.{
  ℕ, zero, suc, ◌+◌, ◌≤◌, ◌≡◌, refl, ap, ◌∙◌, subst, inl, inr, Bool, ◌&&◌, ltb, some, List, [], ◌∷◌,
  arith, get_elem?, set, total, total-set, total-append, total-ext, le-total, Option-cases,
  if◌then◌else◌,
}
use system_related_in_c.Base.Int.{ℤ}
use system_related_in_c.Shop.Kitchen.{Shared, Status, Order, cooked_by, is_cooked}
use system_related_in_c.Shop.Kitchen.Cooks.{Phase, CookPc, cook_step, cook_order}
use system_related_in_c.Shop.Kitchen.Manager.{ManagerPc}
use system_related_in_c.Shop.Kitchen.System.{System}
use system_related_in_c.Shop.Kitchen.Invariant.Slots.{
  Slots, has, is_unbaked, is_baking, is_waiting, is_cooking,
}
use system_related_in_c.Shop.Kitchen.Invariant.Accounts.{
  cooked_w, delivering_w, weight_of, cook_w, delivered_w, Accounts, one, moved, is_delivering,
}

-- The status of the order that a cook is about to change.
abbrev CookFresh : Shared → CookPc → Type 0
CookFresh s (CookPc.busy Phase.at_entrance i) =
    (o : Order) → get_elem? s.orders i ≡ some o → o.status ≡ Status.waiting
CookFresh s (CookPc.busy Phase.out_of_oven i) =
    (o : Order) → get_elem? s.orders i ≡ some o → o.status ≡ Status.cooking
CookFresh s _ = Unit

waiting-of :
    (st : Status) (n : ℕ) (b : Bool)
    → 1 ≤ n
    → n ≡ (if is_waiting st && b then 1 else 0)
    → st ≡ Status.waiting
waiting-of Status.waiting n b le e = refl
waiting-of st n b le e = absurd (omega arith)

cooking-of :
    (st : Status) (n : ℕ) → 1 ≤ n → n ≡ (if is_cooking st then 1 else 0) → st ≡ Status.cooking
cooking-of Status.cooking n le e = refl
cooking-of st n le e = absurd (omega arith)

fresh-of :
    (s : Shared) (cooks : List CookPc) (k : ℕ) (p : CookPc)
    → get_elem? cooks k ≡ some p
    → Slots s cooks
    → CookFresh s p
fresh-of s cooks k (CookPc.busy Phase.at_entrance i) at v = λ o found.
    let mine = le-total (has is_unbaked i) cooks k (CookPc.busy Phase.at_entrance i) at in
    waiting-of o.status (total (has is_unbaked i) cooks) (ltb i s.next) (ground arith)
      ((v.slots i o found).unbaked)
fresh-of s cooks k (CookPc.busy Phase.out_of_oven i) at v = λ o found.
    let mine = le-total (has is_baking i) cooks k (CookPc.busy Phase.out_of_oven i) at in
    cooking-of o.status (total (has is_baking i) cooks) (ground arith) ((v.slots i o found).baking)
fresh-of s cooks k p at v = ground arith

-- A change of an order's status leaves its number.
pub weight_of-set :
    (w : ℤ → ℕ) (os : List Order) (i j : ℕ) (o : Order) (st : Status)
    → get_elem? os i ≡ some o
    → weight_of w (get_elem? (set os i (record o { status = st })) j) ≡ weight_of w (get_elem? os j)
weight_of-set w [] i j o st at = refl
weight_of-set w (q ∷ os) zero zero o st at = ground arith
weight_of-set w (q ∷ os) zero (suc j) o st at = refl
weight_of-set w (q ∷ os) (suc i) zero o st at = refl
weight_of-set w (q ∷ os) (suc i) (suc j) o st at = weight_of-set w os i j o st at

-- What a step of a cook does, in numbers.
record Change (s u : Shared) (p p' : CookPc) : Type 0 where
  cooked_change :
      (w : ℤ → ℕ)
      → total (cooked_w w) u.orders + cook_w w s.orders p + total w s.ready_order_queue
        ≡ total (cooked_w w) s.orders + cook_w w u.orders p' + total w u.ready_order_queue
  delivering_same : (w : ℤ → ℕ) → total (delivering_w w) u.orders ≡ total (delivering_w w) s.orders
  others_same : (w : ℤ → ℕ) (c : CookPc) → cook_w w u.orders c ≡ cook_w w s.orders c
  messages_same :
      (w : ℤ → ℕ) → total (delivered_w w) u.message_queue ≡ total (delivered_w w) s.message_queue
  sent_same : u.sent ≡ s.sent
  delivery_same : u.delivery_queue ≡ s.delivery_queue
  counter_same : u.order_counter_global ≡ s.order_counter_global

module _ (me : ℕ) (s : Shared) where
  status-Change :
      (ph ph' : Phase) (i : ℕ) (o : Order) (st : Status)
      → get_elem? s.orders i ≡ some o
      → ((w : ℤ → ℕ)
          → (if is_cooked st then w o.order_id else 0) + cook_w w s.orders (CookPc.busy ph i)
            ≡ cooked_w w o + cook_w w s.orders (CookPc.busy ph' i))
      → ((w : ℤ → ℕ) → (if is_delivering st then w o.order_id else 0) ≡ delivering_w w o)
      → Change s
          (record s { orders = set s.orders i (record o { status = st }) })
          (CookPc.busy ph i)
          (CookPc.busy ph' i)
  status-Change ph ph' i o st at hc hd = record {
    cooked_change = λ w. omega (
      arith,
      hc w,
      total-set (cooked_w w) s.orders i o (record o { status = st }) at,
      same w (CookPc.busy ph' i),
    );
    delivering_same = λ w.
        omega (arith, hd w, total-set (delivering_w w) s.orders i o (record o { status = st }) at);
    others_same = same;
    messages_same = λ w. refl;
    sent_same = refl;
    delivery_same = refl;
    counter_same = refl;
  }
    where
      same :
          (w : ℤ → ℕ) (c : CookPc)
          → cook_w w (set s.orders i (record o { status = st })) c ≡ cook_w w s.orders c
      same w (CookPc.busy Phase.ready j) = weight_of-set w s.orders i j o st at
      same w c = ground arith

via :
    {s : Shared} (p : CookPc) {r r' : Shared × CookPc}
    → some r ≡ some r'
    → Change s r.0 p r.1
    → Change s r'.0 p r'.1
via {s} p e c = subst (λ r. Change s r.0 p r.1) (some-injective _ _ e) c

module _ (me : ℕ) (s : Shared) {u : Shared} where
  quiet-Change :
      (p p' : CookPc)
      → u.orders ≡ s.orders
      → u.ready_order_queue ≡ s.ready_order_queue
      → u.message_queue ≡ s.message_queue
      → u.sent ≡ s.sent
      → u.delivery_queue ≡ s.delivery_queue
      → u.order_counter_global ≡ s.order_counter_global
      → ((w : ℤ → ℕ) → cook_w w s.orders p ≡ cook_w w s.orders p')
      → Change s u p p'
  quiet-Change p p' eo er em es ed ec h = record {
    cooked_change = λ w. rw (eo, er, h w);
    delivering_same = λ w. rw eo;
    others_same = λ w c. rw eo;
    messages_same = λ w. rw em;
    sent_same = es;
    delivery_same = ed;
    counter_same = ec;
  }

  cook-Change : (p p' : CookPc) → cook_step me s p ≡ some (u, p') → CookFresh s p → Change s u p p'
  unfolding cook_step cook_order
  cook-Change (CookPc.busy Phase.at_entrance i) p' e fresh =
      elim (Option-cases (get_elem? s.orders i)) [
        | inl none_at ↦ absurd (ground (arith, none_at))
        | inr (o, at) ↦ via (CookPc.busy Phase.at_entrance i) (rw at at e) (
            status-Change me s Phase.at_entrance Phase.baking i o Status.cooking at
              (λ w. ground (arith, fresh o at)) (λ w. ground (arith, fresh o at)))
      ]
  cook-Change (CookPc.busy Phase.out_of_oven i) p' e fresh =
      elim (Option-cases (get_elem? s.orders i)) [
        | inl none_at ↦ absurd (ground (arith, none_at))
        | inr (o, at) ↦ via (CookPc.busy Phase.out_of_oven i) (rw at at e) (
            status-Change me s Phase.out_of_oven Phase.ready i o Status.cooked at
              (λ w. ground (arith, fresh o at)) (λ w. ground (arith, fresh o at)))
      ]
  cook-Change (CookPc.busy Phase.ready i) p' e fresh = elim (Option-cases (get_elem? s.orders i)) [
    | inl none_at ↦ absurd (ground (arith, none_at))
    | inr (o, at) ↦ via (CookPc.busy Phase.ready i) (rw at at e) (record {
      cooked_change = λ w.
          omega (arith, total-append w s.ready_order_queue (o.order_id ∷ []), ap (weight_of w) at);
      delivering_same = λ w. refl;
      others_same = λ w c. refl;
      messages_same = λ w. refl;
      sent_same = refl;
      delivery_same = refl;
      counter_same = refl;
    })
  ]
  cook-Change (CookPc.busy Phase.queued i) p' e fresh = elim (Option-cases (get_elem? s.orders i)) [
    | inl none_at ↦ absurd (ground (arith, none_at))
    | inr (o, at) ↦ via (CookPc.busy Phase.queued i) (rw at at e) (record {
      cooked_change = λ w. refl;
      delivering_same = λ w. refl;
      others_same = λ w c. refl;
      messages_same = λ w.
          omega
            (arith, total-append (delivered_w w) s.message_queue (cooked_by me o.order_id ∷ []));
      sent_same = refl;
      delivery_same = refl;
      counter_same = refl;
    })
  ]
  cook-Change CookPc.entered p' e fresh =
      quiet-Change CookPc.entered p' (ground arith) (ground arith) (ground arith) (ground arith)
        (ground arith) (ground arith) (λ w. ground arith)
  cook-Change (CookPc.busy Phase.taken i) p' e fresh =
      quiet-Change (CookPc.busy Phase.taken i) p' (ground arith) (ground arith) (ground arith)
        (ground arith) (ground arith) (ground arith) (λ w. ground arith)
  cook-Change p p' e fresh =
      quiet-Change p p' (ground arith) (ground arith) (ground arith) (ground arith) (ground arith)
        (ground arith) (λ w. ground arith)

pub cook-Accounts :
    (me : ℕ) (s : System) (u : Shared) (k : ℕ) (p p' : CookPc)
    → get_elem? s.cooks k ≡ some p
    → cook_step me s.shared p ≡ some (u, p')
    → Slots s.shared s.cooks
    → Accounts s
    → Accounts (record s { shared = u; cooks = set s.cooks k p' })
cook-Accounts me s u k p p' at e v a = record {
  cooked_eq = λ w. omega (
    arith,
    c.cooked_change w,
    a.cooked_eq w,
    total-set (cook_w w u.orders) s.cooks k p p' at,
    c.others_same w p,
    total-ext (cook_w w u.orders) (cook_w w s.shared.orders) s.cooks (λ i q h. c.others_same w q),
    ap (total w) c.delivery_same,
  );
  delivering_eq = λ w. omega (
    arith,
    c.delivering_same w,
    a.delivering_eq w,
    c.messages_same w,
    ap (total (delivered_w w)) c.sent_same,
  );
  moved_eq =
      moved-same s.manager
      ∙ a.moved_eq
      ∙ omega (arith, c.delivering_same one, ap (total one) c.delivery_same);
}
  where
    c : Change s.shared u p p'
    c = cook-Change me s.shared p p' e (fresh-of s.shared s.cooks k p at v)

    moved-same : (m : ManagerPc) → moved u m ≡ moved s.shared m
    moved-same ManagerPc.ended = c.counter_same
    moved-same m = ground arith
