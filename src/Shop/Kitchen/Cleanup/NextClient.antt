-- ===== src/Shop/Kitchen/Cleanup/NextClient.antt =====
-- What the next client of socket_threads_semaphores_mutex/server.c finds.
use system_related_in_c.Base.{ℕ, ◌≡◌, refl, ap, false, List, [], ◌∷◌, arith, total, All}
use system_related_in_c.Base.Int.{ℤ}
use system_related_in_c.Grades.Text.{Str}
use system_related_in_c.Shop.Memory.{Ptr}
use system_related_in_c.Shop.Kitchen.{Shared, Order}
use system_related_in_c.Shop.Kitchen.Cooks.{CookPc}
use system_related_in_c.Shop.Kitchen.System.{System, Reach}
use system_related_in_c.Shop.Kitchen.Invariant.Oven.{
  has_paddle, has_place, at_door, at_back, Reach-Oven,
}
use system_related_in_c.Shop.Kitchen.Cleanup.{Server, drain, total_cleanup}

drain-nil : (ds : List ℤ) → drain ds ≡ []
drain-nil [] = refl
drain-nil (d ∷ ds) = drain-nil ds

total-out :
    (w : CookPc → ℕ) (cs : List CookPc)
    → w CookPc.out ≡ 0
    → All (λ p. p ≡ CookPc.out) cs
    → total w cs ≡ 0
total-out w [] e outs = refl
total-out w (p ∷ cs) e outs = omega (arith, e, ap w outs.0, total-out w cs e outs.1)

-- What a visit starts with, `sent`, the signals and the statistics aside.
pub record Fresh (pool : ℕ) (s : Shared) : Type 0 where
  pub no_counts : (s.order_counter_global ≡ 0) × (s.next ≡ 0)
  pub more_orders : s.no_more_orders ≡ false
  pub no_ready : s.ready_order_queue ≡ []
  pub no_delivery : s.delivery_queue ≡ []
  pub no_messages : s.message_queue ≡ []
  pub paddles : s.sem_kurek ≡ 3
  pub places : s.oven_cap ≡ 6
  pub entrance : s.oven_access_entrance ≡ 1
  pub exit : s.oven_access_exit ≡ 1
  pub motorcycles : s.available_motorcycle ≡ pool

-- If the cooks of a visit have ended, then after total_cleanup the counters are 0, the queues are
-- empty, no_more_orders is clear, and all semaphores of cooks and motorcycles have the values
-- that a visit starts with.
pub total_cleanup-Fresh :
    (blank : Order) (ids : ℕ → ℕ) (n m : ℕ) (texts : List Str) (v : Server) (s : System)
    (orders fresh : Ptr)
    → Reach blank ids n m texts s
    → All (λ p. p ≡ CookPc.out) s.cooks
    → v.shared ≡ s.shared
    → Fresh m (total_cleanup m orders fresh v).shared
unfolding total_cleanup
total_cleanup-Fresh blank ids n m texts v s orders fresh r outs eq =
    let o = Reach-Oven r in
    record {
      no_counts = (refl, refl);
      more_orders = refl;
      no_ready = drain-nil v.shared.ready_order_queue;
      no_delivery = drain-nil v.shared.delivery_queue;
      no_messages = refl;
      paddles =
          omega
            (arith, ap (λ s. s.sem_kurek) eq, o.paddles, total-out has_paddle s.cooks refl outs);
      places =
          omega (arith, ap (λ s. s.oven_cap) eq, o.places, total-out has_place s.cooks refl outs);
      entrance = omega (
        arith,
        ap (λ s. s.oven_access_entrance) eq,
        o.entrance,
        total-out at_door s.cooks refl outs,
      );
      exit =
          omega
            (arith, ap (λ s. s.oven_access_exit) eq, o.exit, total-out at_back s.cooks refl outs);
      motorcycles = refl;
    }
