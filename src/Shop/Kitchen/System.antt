-- ===== src/Shop/Kitchen/System.antt =====
-- The threads that `main` of socket_threads_semaphores_mutex/server.c creates for one client,
-- interleaved in any order. Nothing is cancelled in these runs. `pthread_cond_wait` returns on a
-- signal, and may return without one, as POSIX allows.
use system_related_in_c.Base.{ℕ, zero, suc, ◌≡◌, false, some, List, [], ◌∷◌, get_elem?, set, repeat}
use system_related_in_c.Grades.Text.{Str}
use system_related_in_c.Shop.Kitchen.{Shared, Order, ThreadStat}
use system_related_in_c.Shop.Kitchen.Cooks.{CookPc, cook_step}
use system_related_in_c.Shop.Kitchen.Riders.{RiderPc, rider_step}
use system_related_in_c.Shop.Kitchen.Manager.{ManagerPc, manager_step, sender_step}

pub record System : Type 0 where
  pub shared : Shared
  pub cooks : List CookPc
  pub riders : List RiderPc
  pub manager : ManagerPc
  pub rest : List Str

-- `thread_stat_arr`, from the rider `i` on.
abbrev pub stats_from : (ℕ → ℕ) → ℕ → ℕ → List ThreadStat
stats_from ids i zero = []
stats_from ids i (suc n) = record { thread_id = ids i; p_count = 0 } ∷ stats_from ids (suc i) n

-- `texts` is what the reads of the manager give, and `ids` the `pthread_self() % 100` of the riders.
abbrev pub init : (ℕ → ℕ) → ℕ → ℕ → List Str → System
init ids cook_pool_size delivery_pool_size texts = record {
  shared = record {
    orders = [];
    order_counter_global = 0;
    next = 0;
    no_more_orders = false;
    exit_from_dummy = false;
    ready_order_queue = [];
    delivery_queue = [];
    message_queue = [];
    sent = [];
    sem_kurek = 3;
    oven_cap = 6;
    oven_access_entrance = 1;
    oven_access_exit = 1;
    cook_counter = 0;
    available_motorcycle = delivery_pool_size;
    can_consume = 0;
    can_deliver = 0;
    thread_stat_arr = stats_from ids 0 delivery_pool_size;
  };
  cooks = repeat cook_pool_size CookPc.idle;
  riders = repeat delivery_pool_size RiderPc.checking;
  manager = ManagerPc.receiving 0;
  rest = texts;
}

-- One thread makes a step.
pub data Step (blank : Order) (ids : ℕ → ℕ) (s : System) : System → Type 0 where
  cook :
      (k me : ℕ) {p p' : CookPc} {u : Shared}
      → get_elem? s.cooks k ≡ some p
      → cook_step me s.shared p ≡ some (u, p')
      → Step blank ids s (record s { shared = u; cooks = set s.cooks k p' })
  rider :
      (k : ℕ) {p p' : RiderPc} {u : Shared}
      → get_elem? s.riders k ≡ some p
      → rider_step (ids k) s.shared p ≡ some (u, p')
      → Step blank ids s (record s { shared = u; riders = set s.riders k p' })
  manager :
      {u : Shared} {rest : List Str} {m : ManagerPc}
      → manager_step blank s.shared s.rest s.manager ≡ some (u, rest, m)
      → Step blank ids s (record s { shared = u; manager = m; rest = rest })
  sender : {u : Shared} → sender_step s.shared ≡ some u → Step blank ids s (record s { shared = u })

-- A thread returns from `pthread_cond_wait` without a signal.
pub data Wake (s : System) : System → Type 0 where
  rider_wakes :
      (k : ℕ) {j : ℕ}
      → get_elem? s.riders k ≡ some (RiderPc.asleep j)
      → Wake s (record s { riders = set s.riders k RiderPc.checking })
  manager_wakes :
      {c k : ℕ}
      → s.manager ≡ ManagerPc.asleep c k
      → Wake s (record s { manager = ManagerPc.polling c })

pub data Reach (blank : Order) (ids : ℕ → ℕ) (n m : ℕ) (texts : List Str) : System → Type 0 where
  here : Reach blank ids n m texts (init ids n m texts)
  next :
      {s t : System}
      → Reach blank ids n m texts s
      → Step blank ids s t
      → Reach blank ids n m texts t
  woken : {s t : System} → Reach blank ids n m texts s → Wake s t → Reach blank ids n m texts t
