-- ===== src/Shop/Kitchen/Sleep.antt =====
-- Who sleeps in `pthread_cond_wait` of socket_threads_semaphores_mutex/server.c, and who is woken.
use system_related_in_c.Base.{
  ℕ, ◌≡◌, ◌≢◌, sym, ◌∙◌, subst, some, List, [], arith, get_elem?, get_elem?-set_other, ℕ_discrete,
}
use mathlib.Core.Option.{some-injective}
use system_related_in_c.Grades.Text.{Str}
use system_related_in_c.Shop.Kitchen.{Shared, Order}
use system_related_in_c.Shop.Kitchen.Cooks.{Phase, CookPc, cook_step, cook_order}
use system_related_in_c.Shop.Kitchen.Riders.{RiderPc, rider_step}
use system_related_in_c.Shop.Kitchen.Manager.{ManagerPc, manager_step, sender_step}
use system_related_in_c.Shop.Kitchen.System.{System, Reach, Step}
use system_related_in_c.Shop.Kitchen.Invariant.Accounts.{ManagerFresh}
use system_related_in_c.Shop.Kitchen.Invariant.Receive.{IsScript}
use system_related_in_c.Shop.Kitchen.Invariant.Main.{Reach-Inv}

module _ {blank : Order} {ids : ℕ → ℕ} {n m : ℕ} {texts : List Str} {all : List Order} {s : System}
    (script : IsScript blank all texts) (r : Reach blank ids n m texts s) where
  -- In every state that the threads reach while a client is served that sends its orders one at a
  -- time and then DONE: if a delivery thread sleeps and there was no broadcast since, no order
  -- waits for delivery.
  pub rider_sleeps_without_orders :
      (k j : ℕ)
      → get_elem? s.riders k ≡ some (RiderPc.asleep j)
      → s.shared.can_deliver ≡ j
      → s.shared.delivery_queue ≡ []
  rider_sleeps_without_orders k j at eq =
      ((Reach-Inv script r).places.riders_fresh k (RiderPc.asleep j) at).1 (sym eq)

  -- In every state that the threads reach while a client is served that sends its orders one at a
  -- time and then DONE: if the manager sleeps and there was no signal since, no cooked order
  -- waits for it.
  pub manager_sleeps_without_orders :
      (c k : ℕ)
      → s.manager ≡ ManagerPc.asleep c k
      → s.shared.can_consume ≡ k
      → s.shared.ready_order_queue ≡ []
  manager_sleeps_without_orders c k at eq =
      let v = (Reach-Inv script r).places in
      (subst (ManagerFresh blank s.shared s.rest v.future) at v.manager_fresh).3 (sym eq)

-- What the threads come to from a state, where none wakes without a signal.
pub data Later (blank : Order) (ids : ℕ → ℕ) (s : System) : System → Type 0 where
  now : Later blank ids s s
  then : {t u : System} → Later blank ids s t → Step blank ids t u → Later blank ids s u

-- The manager is through, and this rider waits for a broadcast.
record Forgotten (k j : ℕ) (s : System) : Type 0 where
  over : s.manager ≡ ManagerPc.ended
  waits : get_elem? s.riders k ≡ some (RiderPc.asleep j)
  unwoken : s.shared.can_deliver ≡ j

cook-deliver :
    (me : ℕ) (s : Shared) {u : Shared} (p p' : CookPc)
    → cook_step me s p ≡ some (u, p')
    → u.can_deliver ≡ s.can_deliver
unfolding cook_step cook_order
cook-deliver me s CookPc.idle p' e = ground arith
cook-deliver me s (CookPc.busy Phase.taken i) p' e = ground arith
cook-deliver me s p p' e = ground arith

rider-deliver :
    (me : ℕ) (s : Shared) {u : Shared} (p p' : RiderPc)
    → rider_step me s p ≡ some (u, p')
    → u.can_deliver ≡ s.can_deliver
unfolding rider_step
rider-deliver me s RiderPc.checking p' e = ground arith
rider-deliver me s p p' e = ground arith

sender-deliver : (s : Shared) {u : Shared} → sender_step s ≡ some u → u.can_deliver ≡ s.can_deliver
unfolding sender_step
sender-deliver s e = ground arith

rider-asleep :
    (me : ℕ) (s : Shared) (j : ℕ) {r : Shared × RiderPc}
    → s.can_deliver ≡ j
    → rider_step me s (RiderPc.asleep j) ≢ some r
unfolding rider_step
rider-asleep me s j eq e = ground arith

manager-ended :
    (blank : Order) (s : Shared) (rest : List Str) (m : ManagerPc)
    {r : Shared × List Str × ManagerPc}
    → m ≡ ManagerPc.ended
    → manager_step blank s rest m ≢ some r
unfolding manager_step
manager-ended blank s rest ManagerPc.ended is e = ground arith
manager-ended blank s rest m is e = ground arith

module _ {blank : Order} {ids : ℕ → ℕ} (k j : ℕ) where
  Step-Forgotten : (s t : System) → Forgotten k j s → Step blank ids s t → Forgotten k j t
  Step-Forgotten s t v (Step.cook i me {p} {p'} at e) = record {
    over = v.over;
    waits = v.waits;
    unwoken = cook-deliver me s.shared p p' e ∙ v.unwoken;
  }
  Step-Forgotten s t v (Step.sender e) = record {
    over = v.over;
    waits = v.waits;
    unwoken = sender-deliver s.shared e ∙ v.unwoken;
  }
  Step-Forgotten s t v (Step.manager e) =
      absurd (manager-ended blank s.shared s.rest s.manager v.over e)
  Step-Forgotten s t v (Step.rider i {p} {p'} {u} at e) = elim (ℕ_discrete i k) [
    | yes same ↦
        let is = some-injective _ _ (sym at ∙ rw same v.waits) in
        absurd (rider-asleep (ids i) s.shared j v.unwoken (rw is at e))
    | no other ↦ record {
      over = v.over;
      waits = get_elem?-set_other s.riders i k p' other ∙ v.waits;
      unwoken = rider-deliver (ids i) s.shared p p' e ∙ v.unwoken;
    }
  ]

  Later-Forgotten : {s t : System} → Forgotten k j s → Later blank ids s t → Forgotten k j t
  Later-Forgotten v now = v
  Later-Forgotten v (then {t} {u} l h) = Step-Forgotten t u (Later-Forgotten v l) h

  -- If the manager has ended, and a delivery thread sleeps and there was no broadcast since, it
  -- sleeps in every later state, as long as no thread wakes without a signal.
  pub never_woken :
      {s t : System}
      → s.manager ≡ ManagerPc.ended
      → get_elem? s.riders k ≡ some (RiderPc.asleep j)
      → s.shared.can_deliver ≡ j
      → Later blank ids s t
      → get_elem? t.riders k ≡ some (RiderPc.asleep j)
  never_woken over waits unwoken l =
      (Later-Forgotten (record { over = over; waits = waits; unwoken = unwoken }) l).waits
