-- ===== src/Shop/Kitchen/Cleanup.antt =====
-- The end of a visit in socket_threads_semaphores_mutex/server.c: the three cleanups, the thread
-- that waits for the end of the input, and the handler of SIGPIPE.
pub mod NextClient
use system_related_in_c.Base.{
  ℕ, zero, suc, ◌+◌, Bool, true, false, Option, none, some, List, [], ◌∷◌, ◌++◌, ◌==◌,
  if◌then◌else◌,
}
use system_related_in_c.Base.Int.{ℤ}
use system_related_in_c.Grades.Text.{Str, codes}
use system_related_in_c.Shop.Memory.{Ptr, null}
use system_related_in_c.Shop.Kitchen.{Shared, is_empty_queue}

pub record Server : Type 0 where
  pub shared : Shared
  pub order_cancelled : Bool
  pub allocated : List Ptr  -- the blocks that malloc has given for `orders`, and free not taken back
  pub to_client : List Str
  pub client_open : Bool
  pub log : List Str

-- `free(orders)`
abbrev pub free_block : Ptr → List Ptr → List Ptr
free_block a [] = []
free_block a (b ∷ bs) = if a == b then free_block a bs else b ∷ free_block a bs

abbrev pub is_allocated : Ptr → List Ptr → Bool
is_allocated a [] = false
is_allocated a (b ∷ bs) = if a == b then true else is_allocated a bs

-- `while (!isEmptyQueue(queue)) dequeue(queue);`
abbrev pub drain : List ℤ → List ℤ
drain [] = []
drain (d ∷ ds) = drain ds

-- What the cleanups have in common: the queues, and the motorcycles.
abbrev pub put_away : ℕ → Shared → Shared
put_away delivery_pool_size s = record s {
  order_counter_global = 0;
  next = 0;
  exit_from_dummy = true;
  ready_order_queue = drain s.ready_order_queue;
  delivery_queue = drain s.delivery_queue;
  message_queue = [];
  available_motorcycle = delivery_pool_size;
}

-- The new array, which only the cleanup's own `orders` points to. It comes after a free in
-- `total_cleanup`, and without one in the other two.
abbrev pub new_array : Ptr → Ptr → List Ptr → List Ptr
new_array orders fresh bs = if orders == null then bs else fresh ∷ bs

unfoldable pub total_cleanup : ℕ → Ptr → Ptr → Server → Server
total_cleanup delivery_pool_size orders fresh v = record {
  shared = record (put_away delivery_pool_size v.shared) { no_more_orders = false };
  order_cancelled = false;
  allocated =
      new_array orders fresh
        (if orders == null then v.allocated else free_block orders v.allocated);
  to_client = v.to_client ++ codes "ALL ORDERS SERVED\n" ∷ [];
  client_open = false;
  log = v.log ++ codes "ALL ORDERS SERVED\n" ∷ [];
}

unfoldable pub total_cleanup2 : ℕ → Ptr → Ptr → Server → Server
total_cleanup2 delivery_pool_size orders fresh v = record v {
  shared = record (put_away delivery_pool_size v.shared) { no_more_orders = true };
  order_cancelled = true;
  allocated = new_array orders fresh v.allocated;
  client_open = false;
}

-- `send` is told to send 19 bytes: the text and the NUL behind it.
unfoldable pub total_cleanup3 : ℕ → Ptr → Ptr → Server → Server
total_cleanup3 delivery_pool_size orders fresh v = record {
  shared = record (put_away delivery_pool_size v.shared) { no_more_orders = true };
  order_cancelled = true;
  allocated = new_array orders fresh v.allocated;
  to_client = v.to_client ++ (codes "ALL ORDERS CANCEL\n" ++ 0 ∷ []) ∷ [];
  client_open = false;
  log = v.log ++ codes "ALL ORDERS CANCELLED BY SERVER\n" ∷ [];
}

-- `handle_sigpipe`, for the signal that it is set up for.
unfoldable pub handle_sigpipe : ℕ → Ptr → Ptr → Server → Server
unfolding total_cleanup3
handle_sigpipe delivery_pool_size orders fresh v =
    total_cleanup3 delivery_pool_size orders fresh
      (record v { log = v.log ++ codes "Orders cancelled by client\n" ∷ [] })

-- What `select` and the `read` behind it give.
pub data Input : Type 0 where
  select_fails : Input
  no_input : Input  -- within a second
  read_fails : Input
  end_of_input : Input
  key : ℕ → Input

-- How `dummy_thread` ends: it returns, it ends the process, or it still waits.
pub data DummyEnd : Type 0 where
  returned : Server → List ℕ → DummyEnd
  exited : ℕ → DummyEnd
  waiting : Server → DummyEnd

abbrev pub echo : ℕ → DummyEnd → DummyEnd
echo c (returned v out) = returned v (c ∷ out)
echo c e = e

-- `dummy_thread`, and what it writes.
unfoldable pub dummy_thread : ℕ → Ptr → Ptr → Server → List Input → DummyEnd
unfolding total_cleanup3
dummy_thread pool orders fresh v [] = if v.shared.exit_from_dummy then returned v [] else waiting v
dummy_thread pool orders fresh v (select_fails ∷ is) =
    if v.shared.exit_from_dummy then returned v [] else exited 1
dummy_thread pool orders fresh v (no_input ∷ is) =
    let rest = dummy_thread pool orders fresh v is in
    if v.shared.exit_from_dummy then returned v [] else rest
dummy_thread pool orders fresh v (read_fails ∷ is) =
    if v.shared.exit_from_dummy then returned v [] else exited 1
dummy_thread pool orders fresh v (end_of_input ∷ is) =
    if v.shared.exit_from_dummy
    then returned v []
    else returned
        (total_cleanup3 pool orders fresh
          (record v { log = v.log ++ codes "Server cancelled orders.\n" ∷ [] }))
        []
dummy_thread pool orders fresh v (key c ∷ is) =
    let rest = dummy_thread pool orders fresh v is in
    if v.shared.exit_from_dummy then returned v [] else echo c rest
