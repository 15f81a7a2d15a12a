-- ===== src/Shop/Queue.antt =====
-- queue.h: the queues of order ids that the threads of the shop pass on. A `Queue` is handed over
-- by pointer in the source: here an operation takes its value and returns the new one. `new_node`
-- and `block` are what `malloc` returns. The ids are only moved, so they may be of any type.
pub mod Refine
pub mod Calls
use system_related_in_c.Base.{ℕ, zero, suc, ◌+◌, ◌-◌, Bool, List, [], ◌∷◌, ◌==◌, if◌then◌else◌}
use system_related_in_c.Shop.Memory.{
  Ptr, null, Heap, Run, ok, exited, fault, out_of_fuel, Cmd, pure, ◌>>=◌, ◌>>◌, exit, load, store,
  set_next, free,
}

pub record Queue : Type 0 where
  pub front : Ptr
  pub rear : Ptr
  pub size : ℕ

abbrev pub queue : Ptr → Ptr → ℕ → Queue
queue f r n = record { front = f; rear = r; size = n }

abbrev pub return_size : Queue → ℕ
return_size q = q.size

abbrev pub is_empty_queue : Queue → Bool
is_empty_queue q = q.front == null

module _ {V : Type 0} where
  unfoldable pub create_queue : Ptr → Cmd V Queue
  create_queue block = if block == null then exit 1 else pure (queue null null 0)

  unfoldable pub enqueue : Ptr → V → Queue → Cmd V Queue
  enqueue new_node value q =
      if new_node == null
      then exit 1
      else if q.rear == null
      then (do store new_node value null; pure (queue new_node new_node (q.size + 1)))
      else (do
        store new_node value null
        set_next q.rear new_node
        pure (queue q.front new_node (q.size + 1)))

  -- `size--` runs only behind the test of `front`: a queue with a node has a size of 1 or more.
  unfoldable pub dequeue : Queue → Cmd V (V × Queue)
  dequeue q = if q.front == null then exit 1 else do
    temp ← load q.front
    free q.front
    pure (temp.payload, queue temp.next (if temp.next == null then null else q.rear) (q.size - 1))

  -- The payloads in the order in which `printf` shows them.
  display_loop : ℕ → Ptr → Cmd V (List V)
  display_loop zero current = λ h. out_of_fuel
  display_loop (suc k) current =
      if current == null
      then pure []
      else do n ← load current; shown ← display_loop k n.next; pure (n.payload ∷ shown)

  -- One round more than there are nodes.
  pub display_queue : Queue → Cmd V (List V)
  unfolding display_loop
  display_queue q = display_loop (q.size + 1) q.front
