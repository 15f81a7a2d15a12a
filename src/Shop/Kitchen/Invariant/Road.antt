-- ===== src/Shop/Kitchen/Invariant/Road.antt =====
-- The motorcycles, and the numbers of deliveries that `main` prints.
use system_related_in_c.Base.{
  ℕ, zero, suc, ◌+◌, ◌≤◌, ◌<◌, ◌≡◌, refl, sym, ap, ◌∙◌, Bool, true, false, some, List, [], ◌∷◌, inl,
  inr, arith, get_elem?, get_elem?-lt, length, length-set, total, total-set, total-append,
  total-repeat, length-repeat, if◌then◌else◌, ◌==◌, Option-cases, ℕ_discrete, ==_refl,
}
use system_related_in_c.Grades.Text.{Str, until_nul}
use system_related_in_c.Shop.Kitchen.{
  Shared, Order, ThreadStat, Message, delivered_by, cooked_by, count_delivery, accepted,
}
use system_related_in_c.Shop.Kitchen.Cooks.{Phase, CookPc, cook_step, cook_order}
use system_related_in_c.Shop.Kitchen.Riders.{RiderPc, rider_step}
use system_related_in_c.Shop.Kitchen.Manager.{
  ManagerPc, manager_step, receive, sender_step, send_next,
}
use system_related_in_c.Shop.Kitchen.System.{System, Step, Wake, Reach, stats_from}
use system_related_in_c.Shop.Kitchen.Invariant.Receive.{receiving-cases}
use system_related_in_c.Shop.Kitchen.Invariant.Accounts.{one, delivered_w}

-- Between sem_wait(&available_motorcycle) and its sem_post.
abbrev pub on_bike : RiderPc → ℕ
on_bike (RiderPc.starting d) = 1
on_bike (RiderPc.driving d) = 1
on_bike RiderPc.returning = 1
on_bike _ = 0

-- Between the count of a delivery and its message.
abbrev pub on_road : RiderPc → ℕ
on_road (RiderPc.driving d) = 1
on_road _ = 0

abbrev pub deliveries : List ThreadStat → ℕ
deliveries ts = total (λ t. t.p_count) ts

abbrev pub messages : Shared → ℕ
messages s = total (delivered_w one) s.message_queue + total (delivered_w one) s.sent

abbrev listed : ℕ → List ThreadStat → Bool
listed me [] = false
listed me (t ∷ ts) = if me == t.thread_id then true else listed me ts

count_delivery-total :
    (me : ℕ) (ts : List ThreadStat)
    → listed me ts ≡ true
    → deliveries (count_delivery me ts) ≡ suc (deliveries ts)
unfolding count_delivery
count_delivery-total me [] h = ground arith
count_delivery-total me (t ∷ ts) h = ground (arith, count_delivery-total me ts)

count_delivery-listed :
    (me you : ℕ) (ts : List ThreadStat) → listed you (count_delivery me ts) ≡ listed you ts
unfolding count_delivery
count_delivery-listed me you [] = refl
count_delivery-listed me you (t ∷ ts) = ground (arith, count_delivery-listed me you ts)

listed-stats_from :
    (ids : ℕ → ℕ) (i n k : ℕ) → i ≤ k → k < i + n → listed (ids k) (stats_from ids i n) ≡ true
listed-stats_from ids i zero k le lt = absurd (omega arith)
listed-stats_from ids i (suc n) k le lt = elim (ℕ_discrete i k) [
  | yes eq ↦ rw (eq, ==_refl (ids k))
  | no ne ↦ ground (arith, listed-stats_from ids (suc i) n k (omega arith) (omega arith))
]

deliveries-stats_from : (ids : ℕ → ℕ) (i n : ℕ) → deliveries (stats_from ids i n) ≡ 0
deliveries-stats_from ids i zero = refl
deliveries-stats_from ids i (suc n) = omega (arith, deliveries-stats_from ids (suc i) n)

pub record Road (ids : ℕ → ℕ) (m : ℕ) (s : System) : Type 0 where
  pub bikes : s.shared.available_motorcycle + total on_bike s.riders ≡ m
  pub counts : deliveries s.shared.thread_stat_arr ≡ total on_road s.riders + messages s.shared
  pub known : (k : ℕ) → k < length s.riders → listed (ids k) s.shared.thread_stat_arr ≡ true

-- What is the same where no rider has made a step.
abbrev Same : Shared → Shared → Type 0
Same s u =
    (u.available_motorcycle ≡ s.available_motorcycle)
    × (u.thread_stat_arr ≡ s.thread_stat_arr)
    × (messages u ≡ messages s)

module _ (s : Shared) {u : Shared} where
  cook-Same : (me : ℕ) (p p' : CookPc) → cook_step me s p ≡ some (u, p') → Same s u
  unfolding cook_step cook_order
  cook-Same me CookPc.idle p' e = ground arith
  cook-Same me (CookPc.busy Phase.taken i) p' e = ground arith
  cook-Same me (CookPc.busy Phase.queued i) p' e = elim (Option-cases (get_elem? s.orders i)) [
    | inl none_at ↦ absurd (ground (arith, none_at))
    | inr (o, at) ↦
        ground
          (arith, at, total-append (delivered_w one) s.message_queue (cooked_by me o.order_id ∷ []))
  ]
  cook-Same me p p' e = ground arith

  receive-Same : (blank : Order) (c : ℕ) (text : Str) → receive blank s c text ≡ some u → Same s u
  unfolding receive
  receive-Same blank c text e =
      ground (arith, total-append (delivered_w one) s.sent (accepted ∷ []))

  sender-Same : sender_step s ≡ some u → Same s u
  unfolding sender_step
  sender-Same e = by_queue s.message_queue refl
    where
      by_queue : (ms : List Message) → s.message_queue ≡ ms → Same s u
      by_queue [] eq = absurd (ground arith)
      by_queue (m ∷ ms) eq =
          let h = ap (send_next s) (sym eq) ∙ e in
          ground (
            arith,
            h,
            ap (total (delivered_w one)) eq,
            total-append (delivered_w one) s.sent (m ∷ []),
          )

  rider-change :
      (me : ℕ) (p p' : RiderPc)
      → listed me s.thread_stat_arr ≡ true
      → rider_step me s p ≡ some (u, p')
      → (u.available_motorcycle + on_bike p' ≡ s.available_motorcycle + on_bike p)
        × (deliveries u.thread_stat_arr + on_road p + messages s
            ≡ deliveries s.thread_stat_arr + on_road p' + messages u)
  unfolding rider_step
  rider-change me RiderPc.checking p' h e = ground arith
  rider-change me (RiderPc.starting d) p' h e =
      ground (arith, count_delivery-total me s.thread_stat_arr h)
  rider-change me (RiderPc.driving d) p' h e =
      ground (arith, total-append (delivered_w one) s.message_queue (delivered_by me d ∷ []))
  rider-change me p p' h e = ground arith

  rider-listed :
      (me you : ℕ) (p p' : RiderPc)
      → rider_step me s p ≡ some (u, p')
      → listed you u.thread_stat_arr ≡ listed you s.thread_stat_arr
  unfolding rider_step
  rider-listed me you RiderPc.checking p' e = ground arith
  rider-listed me you (RiderPc.starting d) p' e =
      ground (arith, count_delivery-listed me you s.thread_stat_arr)
  rider-listed me you p p' e = ground arith

manager-Same :
    (blank : Order) (s u : Shared) (rest rest' : List Str) (m m' : ManagerPc)
    → manager_step blank s rest m ≡ some (u, rest', m')
    → Same s u
unfolding manager_step
manager-Same blank s u [] rest' (ManagerPc.receiving c) m' e = ground arith
manager-Same blank s u (bytes ∷ rest) rest' (ManagerPc.receiving c) m' e =
    elim (receiving-cases blank s u bytes rest rest' c m' e) [
      | inl h ↦ ground (arith, h.1)
      | inr h ↦ receive-Same s blank c (until_nul bytes) h.1
    ]
manager-Same blank s u rest rest' m m' e = ground arith

Same-Road :
    {ids : ℕ → ℕ} {m : ℕ} (s t : System)
    → Same s.shared t.shared
    → t.riders ≡ s.riders
    → Road ids m s
    → Road ids m t
Same-Road s t same eq v = record {
  bikes = rw (eq, same.0) v.bikes;
  counts = rw (eq, same.1) (v.counts ∙ omega (arith, same.2));
  known = rw (eq, same.1) v.known;
}

module _ {ids : ℕ → ℕ} {m : ℕ} where
  Wake-Road : (s t : System) → Road ids m s → Wake s t → Road ids m t
  Wake-Road s _ v (Wake.rider_wakes k {j} at) = record {
    bikes =
        omega (arith, v.bikes, total-set on_bike s.riders k (RiderPc.asleep j) RiderPc.checking at);
    counts =
        omega
          (arith, v.counts, total-set on_road s.riders k (RiderPc.asleep j) RiderPc.checking at);
    known = λ i lt. v.known i (omega (arith, length-set s.riders k RiderPc.checking));
  }
  Wake-Road s t v (Wake.manager_wakes at) = Same-Road s t (refl, refl, refl) refl v

module _ {blank : Order} {ids : ℕ → ℕ} {m : ℕ} where
  Step-Road : (s t : System) → Road ids m s → Step blank ids s t → Road ids m t
  Step-Road s t v (Step.cook k me {p} {p'} at e) =
      Same-Road s t (cook-Same s.shared me p p' e) refl v
  Step-Road s t v (Step.manager {u} {rest} {m = n} e) =
      Same-Road s t (manager-Same blank s.shared u s.rest rest s.manager n e) refl v
  Step-Road s t v (Step.sender e) = Same-Road s t (sender-Same s.shared e) refl v
  Step-Road s _ v (Step.rider k {p} {p'} at e) =
      let h = rider-change s.shared (ids k) p p' (v.known k (get_elem?-lt s.riders k p at)) e in
      record {
        bikes = omega (arith, h.0, v.bikes, total-set on_bike s.riders k p p' at);
        counts = omega (arith, h.1, v.counts, total-set on_road s.riders k p p' at);
        known = λ j lt.
            rider-listed s.shared (ids k) (ids j) p p' e
            ∙ v.known j (omega (arith, length-set s.riders k p'));
      }

  pub Reach-Road :
      {n : ℕ} {texts : List Str} {s : System} → Reach blank ids n m texts s → Road ids m s
  Reach-Road Reach.here = record {
    bikes = omega (arith, total-repeat on_bike RiderPc.checking m);
    counts = omega (arith, deliveries-stats_from ids 0 m, total-repeat on_road RiderPc.checking m);
    known = λ k lt.
        listed-stats_from ids 0 m k (omega arith) (omega (arith, length-repeat m RiderPc.checking));
  }
  Reach-Road (Reach.next {s} {t} r h) = Step-Road s t (Reach-Road r) h
  Reach-Road (Reach.woken {s} {t} r h) = Wake-Road s t (Reach-Road r) h
