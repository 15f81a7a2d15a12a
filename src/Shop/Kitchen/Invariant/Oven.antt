-- ===== src/Shop/Kitchen/Invariant/Oven.antt =====
-- The semaphores of the cooks: what a cook has taken of each, by its place.
use system_related_in_c.Base.{
  ℕ, ◌+◌, inl, inr, ◌≡◌, refl, some, List, [], ◌∷◌, arith, total, total-set, total-repeat,
}
use system_related_in_c.Grades.Text.{Str, until_nul}
use system_related_in_c.Shop.Kitchen.{Shared, Order}
use system_related_in_c.Shop.Kitchen.Cooks.{Phase, CookPc, cook_step, cook_order}
use system_related_in_c.Shop.Kitchen.Riders.{RiderPc, rider_step}
use system_related_in_c.Shop.Kitchen.Manager.{ManagerPc, manager_step, receive, sender_step}
use system_related_in_c.Shop.Kitchen.Invariant.Receive.{receiving-cases}
use system_related_in_c.Shop.Kitchen.System.{System, Step, Wake, Reach, init}

-- Between sem_wait(&sem_kurek) and its sem_post.
abbrev pub has_paddle : CookPc → ℕ
has_paddle (CookPc.busy Phase.paddled i) = 1
has_paddle (CookPc.busy Phase.in_oven i) = 1
has_paddle (CookPc.busy Phase.at_entrance i) = 1
has_paddle (CookPc.busy Phase.baking i) = 1
has_paddle (CookPc.busy Phase.opened i) = 1
has_paddle (CookPc.busy Phase.left_oven i) = 1
has_paddle _ = 0

-- Between sem_wait(&oven_cap) and its sem_post.
abbrev pub has_place : CookPc → ℕ
has_place (CookPc.busy Phase.in_oven i) = 1
has_place (CookPc.busy Phase.at_entrance i) = 1
has_place (CookPc.busy Phase.baking i) = 1
has_place (CookPc.busy Phase.opened i) = 1
has_place _ = 0

-- Between sem_wait(&oven_access_entrance) and its sem_post, where it cooks.
abbrev pub at_door : CookPc → ℕ
at_door (CookPc.busy Phase.at_entrance i) = 1
at_door (CookPc.busy Phase.baking i) = 1
at_door _ = 0

-- Between sem_wait(&oven_access_exit) and its sem_post.
abbrev pub at_back : CookPc → ℕ
at_back (CookPc.busy Phase.at_exit i) = 1
at_back _ = 0

pub record Oven (s : System) : Type 0 where
  pub paddles : s.shared.sem_kurek + total has_paddle s.cooks ≡ 3
  pub places : s.shared.oven_cap + total has_place s.cooks ≡ 6
  pub entrance : s.shared.oven_access_entrance + total at_door s.cooks ≡ 1
  pub exit : s.shared.oven_access_exit + total at_back s.cooks ≡ 1

module _ (me : ℕ) (s : Shared) {u : Shared} where
  cook-sems :
      (p p' : CookPc)
      → cook_step me s p ≡ some (u, p')
      → (u.sem_kurek + has_paddle p' ≡ s.sem_kurek + has_paddle p)
        × (u.oven_cap + has_place p' ≡ s.oven_cap + has_place p)
        × (u.oven_access_entrance + at_door p' ≡ s.oven_access_entrance + at_door p)
        × (u.oven_access_exit + at_back p' ≡ s.oven_access_exit + at_back p)
  unfolding cook_step cook_order
  cook-sems CookPc.idle p' e = ground arith
  cook-sems CookPc.entered p' e = ground arith
  cook-sems CookPc.out p' e = ground arith
  cook-sems (CookPc.busy Phase.taken i) p' e = ground arith
  cook-sems (CookPc.busy ph i) p' e = ground arith

-- What is the same where no cook has made a step.
abbrev Same : Shared → Shared → Type 0
Same s u =
    (u.sem_kurek ≡ s.sem_kurek)
    × (u.oven_cap ≡ s.oven_cap)
    × (u.oven_access_entrance ≡ s.oven_access_entrance)
    × (u.oven_access_exit ≡ s.oven_access_exit)

module _ (s : Shared) {u : Shared} where
  rider-Same : (me : ℕ) (p p' : RiderPc) → rider_step me s p ≡ some (u, p') → Same s u
  unfolding rider_step
  rider-Same me RiderPc.checking p' e = ground arith
  rider-Same me p p' e = ground arith

  receive-Same : (blank : Order) (c : ℕ) (text : Str) → receive blank s c text ≡ some u → Same s u
  unfolding receive
  receive-Same blank c text e = ground arith

  sender-Same : sender_step s ≡ some u → Same s u
  unfolding sender_step
  sender-Same e = ground arith

manager-Same :
    (blank : Order) (s u : Shared) (rest rest' : List Str) (m m' : ManagerPc)
    → manager_step blank s rest m ≡ some (u, rest', m')
    → Same s u
unfolding manager_step
manager-Same blank s u [] rest' (ManagerPc.receiving c) m' e = ground arith
manager-Same blank s u (bytes ∷ rest) rest' (ManagerPc.receiving c) m' e =
    elim (receiving-cases blank s u bytes rest rest' c m' e) [
      | inl h ↦ ground (arith, h.1)
      | inr h ↦ receive-Same s blank c (until_nul bytes) h.1
    ]
manager-Same blank s u rest rest' m m' e = ground arith

init-Oven : (ids : ℕ → ℕ) (n m : ℕ) (texts : List Str) → Oven (init ids n m texts)
init-Oven ids n m texts = record {
  paddles = omega (arith, total-repeat has_paddle CookPc.idle n);
  places = omega (arith, total-repeat has_place CookPc.idle n);
  entrance = omega (arith, total-repeat at_door CookPc.idle n);
  exit = omega (arith, total-repeat at_back CookPc.idle n);
}

Same-Oven : (s t : System) → Same s.shared t.shared → t.cooks ≡ s.cooks → Oven s → Oven t
Same-Oven s t same eq v = record {
  paddles = rw (eq, same.0) v.paddles;
  places = rw (eq, same.1) v.places;
  entrance = rw (eq, same.2) v.entrance;
  exit = rw (eq, same.3) v.exit;
}

Wake-Oven : (s t : System) → Oven s → Wake s t → Oven t
Wake-Oven s t v (Wake.rider_wakes k at) = Same-Oven s t (refl, refl, refl, refl) refl v
Wake-Oven s t v (Wake.manager_wakes at) = Same-Oven s t (refl, refl, refl, refl) refl v

module _ {blank : Order} {ids : ℕ → ℕ} where
  Step-Oven : (s t : System) → Oven s → Step blank ids s t → Oven t
  Step-Oven s _ v (Step.cook k me {p} {p'} {u} at e) =
      let h = cook-sems me s.shared p p' e in
      record {
        paddles = omega (arith, h.0, v.paddles, total-set has_paddle s.cooks k p p' at);
        places = omega (arith, h.1, v.places, total-set has_place s.cooks k p p' at);
        entrance = omega (arith, h.2, v.entrance, total-set at_door s.cooks k p p' at);
        exit = omega (arith, h.3, v.exit, total-set at_back s.cooks k p p' at);
      }
  Step-Oven s t v (Step.rider k {p} {p'} at e) =
      Same-Oven s t (rider-Same s.shared (ids k) p p' e) refl v
  Step-Oven s t v (Step.manager {u} {rest} {m} e) =
      Same-Oven s t (manager-Same blank s.shared u s.rest rest s.manager m e) refl v
  Step-Oven s t v (Step.sender e) = Same-Oven s t (sender-Same s.shared e) refl v

  pub Reach-Oven : {n m : ℕ} {texts : List Str} {s : System} → Reach blank ids n m texts s → Oven s
  Reach-Oven {n} {m} {texts} Reach.here = init-Oven ids n m texts
  Reach-Oven (Reach.next {s} {t} r h) = Step-Oven s t (Reach-Oven r) h
  Reach-Oven (Reach.woken {s} {t} r h) = Wake-Oven s t (Reach-Oven r) h
