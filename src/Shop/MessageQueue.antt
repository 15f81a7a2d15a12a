-- ===== src/Shop/MessageQueue.antt =====
-- messageQueue.h: the queue of messages for the client. `new_node` and `block` are what `malloc`
-- returns, and `message` is the copy that `strdup` makes (which is taken to succeed), in a block of its
-- own: the clear tells which copies it frees, one after the other. The mutex is
-- a flag: an operation that finds it taken waits, so it starts with the flag clear, and runs alone.
pub mod Refine
pub mod Calls
use system_related_in_c.Base.{
  ℕ, zero, suc, Bool, true, false, Option, none, some, List, [], ◌∷◌, ◌==◌, if◌then◌else◌,
}
use system_related_in_c.Shop.Memory.{
  Ptr, null, out_of_fuel, Cmd, pure, ◌>>=◌, ◌>>◌, exit, load, store, set_next, free,
}

pub record MessageQueue : Type 0 where
  pub front : Ptr
  pub rear : Ptr
  pub locked : Bool

abbrev pub lock : MessageQueue → MessageQueue
lock q = record q { locked = true }

abbrev pub unlock : MessageQueue → MessageQueue
unlock q = record q { locked = false }

module _ {V : Type 0} where
  unfoldable pub create_message_queue : Ptr → Cmd V MessageQueue
  create_message_queue block =
      if block == null then exit 1 else pure (record { front = null; rear = null; locked = false })

  -- The result of `malloc` is not tested.
  unfoldable pub enqueue_message : Ptr → V → MessageQueue → Cmd V MessageQueue
  enqueue_message new_node message q0 = do
    let q = lock q0
    store new_node message null
    if q.rear == null
        then pure (unlock (record q { front = new_node; rear = new_node }))
        else do set_next q.rear new_node; pure (unlock (record q { rear = new_node }))

  -- `none` is the result `NULL`.
  unfoldable pub dequeue_message : MessageQueue → Cmd V (Option V × MessageQueue)
  dequeue_message q0 =
      let q = lock q0 in
      if q.front == null then pure (none, unlock q) else do
        temp ← load q.front
        let rear' = if temp.next == null then null else q.rear
        free q.front
        pure (some temp.payload, unlock (record q { front = temp.next; rear = rear' }))

  -- Its result is what `free(current->message)` is called with.
  unfoldable pub clear_loop : ℕ → Ptr → Cmd V (List V)
  clear_loop zero current = λ h. out_of_fuel
  clear_loop (suc k) current =
      if current == null then pure [] else do
        n ← load current
        free current
        freed ← clear_loop k n.next
        pure (n.payload ∷ freed)

  -- With fuel for the loop.
  unfoldable pub clear_message_queue : ℕ → MessageQueue → Cmd V (MessageQueue × List V)
  unfolding clear_loop
  clear_message_queue fuel q0 = do
    let q = lock q0
    freed ← clear_loop fuel q.front
    pure (unlock (record q { front = null; rear = null }), freed)
