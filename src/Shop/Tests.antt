-- ===== src/Shop/Tests.antt =====
-- The queues of queue.h and messageQueue.h on small examples, and the theorems at them.
use system_related_in_c.Base.{ℕ, ◌≡◌, refl, true, false, none, List, [], ◌∷◌, ◌++◌, arith}
use system_related_in_c.Shop.Memory.{
  Ptr, null, Heap, ok, Returns, update, cell, store, load, set_next, free,
}
use system_related_in_c.Shop.Fifo
use system_related_in_c.Shop.Fifo.{
  Call, put, get, ask_empty, ask_size, Reply, done, got, flag, number, stopped,
}
use system_related_in_c.Shop.Queue.{queue, create_queue, enqueue, dequeue, display_queue}
use system_related_in_c.Shop.Queue.Refine.{
  IsQueue, Spares, Dequeued, enqueue-IsQueue, dequeue-IsQueue, display_queue_lem,
}
use system_related_in_c.Shop.Queue.Calls.{run, Serves, run_refines, session, session_refines}
use system_related_in_c.Shop.MessageQueue.{
  MessageQueue, enqueue_message, dequeue_message, clear_message_queue, clear_loop,
}
use system_related_in_c.Shop.MessageQueue.Calls as MessageCalls
use system_related_in_c.Shop.MessageQueue.Calls.{send, receive, clear, message_session_refines}
use system_related_in_c.Shop.MessageQueue.Refine.{
  IsMessageQueue, Taken, enqueue_message-IsMessageQueue, dequeue_message-Taken,
}

abbrev no_nodes : Heap ℕ
no_nodes p = none

-- The orders 70 at address 2 and 71 at address 5.
abbrev two_nodes : Heap ℕ
two_nodes = update (update no_nodes 5 (cell 71 null)) 2 (cell 70 5)

abbrev nodes : List (Ptr × ℕ)
nodes = (2, 70) ∷ (5, 71) ∷ []

two_nodes-IsQueue : IsQueue two_nodes (queue 2 5 2) nodes
two_nodes-IsQueue = record {
  front_at = refl;
  rear_at = refl;
  counted = refl;
  linked = (cc, refl, refl, (cc, refl, refl, tt));
}

-- Address 4 is freed and handed out again.
abbrev calls : List (Call ℕ)
calls =
    ask_empty
    ∷ put 4 70
    ∷ put 6 71
    ∷ get
    ∷ put 4 72
    ∷ ask_size
    ∷ get
    ∷ get
    ∷ ask_empty
    ∷ get
    ∷ ask_size
    ∷ []

run_test :
    session 1 calls no_nodes
    ≡ flag true
      ∷ done
      ∷ done
      ∷ got 70
      ∷ done
      ∷ number 2
      ∷ got 71
      ∷ got 72
      ∷ flag true
      ∷ stopped 1
      ∷ []
unfolding session run create_queue enqueue dequeue store load set_next free
run_test = refl

session_refines_example : session 1 calls no_nodes ≡ Fifo.run calls []
unfolding Serves enqueue dequeue store load set_next free
session_refines_example =
    session_refines 1 calls no_nodes ((λ _. refl), ((λ _. refl), ((λ _. refl), tt)))

run_refines_test :
    run (get ∷ put 2 72 ∷ put null 73 ∷ get ∷ []) (queue 2 5 2) two_nodes
    ≡ Fifo.run (get ∷ put 2 72 ∷ put null 73 ∷ get ∷ []) (70 ∷ 71 ∷ [])
unfolding Serves enqueue dequeue store load set_next free
run_refines_test =
    run_refines (get ∷ put 2 72 ∷ put null 73 ∷ get ∷ []) (queue 2 5 2) two_nodes nodes
      two_nodes-IsQueue ((λ _. refl), ((λ ne. absurd (ne refl)), tt))

enqueue-IsQueue_test :
    Returns
      (λ q' g. IsQueue g q' (nodes ++ (9, 72) ∷ []) × Spares 9 nodes two_nodes g)
      (enqueue 9 72 (queue 2 5 2) two_nodes)
enqueue-IsQueue_test =
    enqueue-IsQueue 9 72 two_nodes (queue 2 5 2) nodes two_nodes-IsQueue (λ e. cc e) refl

dequeue-IsQueue_test :
    Returns (Dequeued two_nodes 2 70 ((5, 71) ∷ [])) (dequeue (queue 2 5 2) two_nodes)
dequeue-IsQueue_test = dequeue-IsQueue 2 70 two_nodes (queue 2 5 2) ((5, 71) ∷ []) two_nodes-IsQueue

display_queue_lem_test : display_queue (queue 2 5 2) two_nodes ≡ ok (70 ∷ 71 ∷ []) two_nodes
display_queue_lem_test = display_queue_lem two_nodes (queue 2 5 2) nodes two_nodes-IsQueue

abbrev messages : MessageQueue
messages = record { front = 2; rear = 5; locked = false }

two_nodes-IsMessageQueue : IsMessageQueue two_nodes messages nodes
two_nodes-IsMessageQueue = record {
  front_at = refl;
  rear_at = refl;
  free_lock = refl;
  linked = (cc, refl, refl, (cc, refl, refl, tt));
}

enqueue_message-IsMessageQueue_test :
    Returns
      (λ q' g. IsMessageQueue g q' (nodes ++ (9, 72) ∷ []))
      (enqueue_message 9 72 messages two_nodes)
enqueue_message-IsMessageQueue_test =
    enqueue_message-IsMessageQueue 9 72 two_nodes messages nodes two_nodes-IsMessageQueue
      (λ e. cc e) refl

dequeue_message-Taken_test : Returns (Taken two_nodes nodes) (dequeue_message messages two_nodes)
dequeue_message-Taken_test = dequeue_message-Taken two_nodes messages nodes two_nodes-IsMessageQueue

-- Address 4 is freed by the clear and handed out again, and then `malloc` fails.
abbrev sends : List (MessageCalls.Call ℕ)
sends =
    send 4 70
    ∷ receive
    ∷ receive
    ∷ send 4 71
    ∷ send 6 72
    ∷ clear
    ∷ send 4 73
    ∷ receive
    ∷ send null 74
    ∷ receive
    ∷ []

message_session_refines_example :
    MessageCalls.session 11 1 sends no_nodes ≡ MessageCalls.spec sends []
unfolding MessageCalls.Serves enqueue_message dequeue_message clear_message_queue clear_loop store
    load set_next free
message_session_refines_example =
    message_session_refines 11 1 sends no_nodes (omega arith)
      ((λ _. refl), ((λ _. refl), ((λ _. refl), ((λ _. refl), ((λ ne. absurd (ne refl)), tt)))))
