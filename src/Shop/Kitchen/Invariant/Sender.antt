-- ===== src/Shop/Kitchen/Invariant/Sender.antt =====
-- A step of the sender keeps the invariant.
use mathlib.Core.Option.{some-injective}
use system_related_in_c.Base.{
  ◌≡◌, refl, sym, ap, ◌∙◌, subst, some, List, [], ◌∷◌, ◌++◌, arith, total, total-append,
}
use system_related_in_c.Grades.Text.{Str}
use system_related_in_c.Shop.Kitchen.{Shared, Order, Message}
use system_related_in_c.Shop.Kitchen.Riders.{RiderPc}
use system_related_in_c.Shop.Kitchen.Manager.{ManagerPc, sender_step, send_next}
use system_related_in_c.Shop.Kitchen.System.{System}
use system_related_in_c.Shop.Kitchen.Invariant.Slots.{Slots-keep}
use system_related_in_c.Shop.Kitchen.Invariant.Accounts.{
  delivered_w, moved, ManagerFresh, RiderFresh,
}
use system_related_in_c.Shop.Kitchen.Invariant.Manager.{Inv}

-- The sender only moves messages.
module _ (sh : Shared) (m : Message) (ms : List Message) where
  abbrev after_send : Shared
  after_send = record sh { message_queue = ms; sent = sh.sent ++ m ∷ [] }

  moved-same : (n : ManagerPc) → moved after_send n ≡ moved sh n
  moved-same ManagerPc.ended = refl
  moved-same n = ground arith

  manager-keep :
      (blank : Order) (rest : List Str) (future : List Order) (n : ManagerPc)
      → ManagerFresh blank sh rest future n
      → ManagerFresh blank after_send rest future n
  manager-keep blank rest future (ManagerPc.receiving c) f = f
  manager-keep blank rest future (ManagerPc.asleep c k) f = f
  manager-keep blank rest future n f = ground arith

  rider-keep : (q : RiderPc) → RiderFresh sh q → RiderFresh after_send q
  rider-keep (RiderPc.asleep k) f = f
  rider-keep RiderPc.out f = f
  rider-keep q f = ground arith

module _ {blank : Order} {all : List Order} (s : System) where
  sent-Inv :
      (m : Message) (ms : List Message)
      → s.shared.message_queue ≡ m ∷ ms
      → Inv blank all s
      → Inv blank all (record s { shared = after_send s.shared m ms })
  sent-Inv m ms eq v = record {
    slots = Slots-keep s.shared (after_send s.shared m ms) s.cooks refl refl refl v.slots;
    accounts = record {
      cooked_eq = v.accounts.cooked_eq;
      delivering_eq = λ w. omega (
        arith,
        v.accounts.delivering_eq w,
        ap (total (delivered_w w)) eq,
        total-append (delivered_w w) s.shared.sent (m ∷ []),
      );
      moved_eq = moved-same s.shared m ms s.manager ∙ v.accounts.moved_eq;
    };
    places = record {
      future = v.places.future;
      ids_eq = v.places.ids_eq;
      manager_fresh =
          manager-keep s.shared m ms blank s.rest v.places.future s.manager v.places.manager_fresh;
      closed = v.places.closed;
      riders_fresh = λ k q at. rider-keep s.shared m ms q (v.places.riders_fresh k q at);
    };
  }

  pub sender-Inv :
      (u : Shared)
      → sender_step s.shared ≡ some u
      → Inv blank all s
      → Inv blank all (record s { shared = u })
  unfolding sender_step
  sender-Inv u e v = by_queue s.shared.message_queue refl
    where
      by_queue :
          (ms : List Message)
          → s.shared.message_queue ≡ ms
          → Inv blank all (record s { shared = u })
      by_queue [] eq = absurd (ground arith)
      by_queue (m ∷ ms) eq =
          subst (λ u. Inv blank all (record s { shared = u }))
            (some-injective _ _ (ap (send_next s.shared) (sym eq) ∙ e)) (sent-Inv m ms eq v)
