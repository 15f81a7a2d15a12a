-- ===== src/Shop/MessageQueue/Calls.antt =====
-- Calls of messageQueue.h, one after the other, against a list of messages. Each finds the mutex
-- free, so none waits.
use system_related_in_c.Base.{
  ℕ, ◌+◌, ◌<◌, ◌≡◌, ◌≢◌, refl, false, Option, none, some, List, [], ◌∷◌, ◌++◌, map, map-append,
  arith, ◌==◌, ==_ne, if◌then◌else◌, length, length-append, subst, ℕ_discrete,
}
use system_related_in_c.Shop.Memory.{
  Ptr, null, Heap, Run, ok, exited, fault, out_of_fuel, Returns-cases,
}
use system_related_in_c.Shop.MessageQueue.{
  MessageQueue, create_message_queue, enqueue_message, dequeue_message, clear_message_queue,
}
use system_related_in_c.Shop.MessageQueue.Refine.{
  IsMessageQueue, enqueue_message-null, enqueue_message-IsMessageQueue, dequeue_message-Taken,
  clear_message_queue_lem,
}

-- `send` carries the address that `malloc` returns for the new node.
pub data Call (V : Type 0) : Type 0 where
  send : Ptr → V → Call V
  receive : Call V
  clear : Call V

pub data Reply (V : Type 0) : Type 0 where
  done : Reply V
  received : Option V → Reply V
  stopped : ℕ → Reply V
  crashed : Reply V

-- The queue that `createMessageQueue` returns.
abbrev pub fresh : MessageQueue
fresh = record { front = null; rear = null; locked = false }

module _ {V : Type 0} where
  -- What the queue promises. A message for which there is no memory crashes the program.
  unfoldable pub spec : List (Call V) → List V → List (Reply V)
  spec [] xs = []
  spec (send a v ∷ calls) xs =
      let rest = spec calls (xs ++ v ∷ []) in if a == null then crashed ∷ [] else done ∷ rest
  spec (receive ∷ calls) [] = received none ∷ spec calls []
  spec (receive ∷ calls) (x ∷ xs) = received (some x) ∷ spec calls xs
  spec (clear ∷ calls) xs = done ∷ spec calls []

  abbrev replies : {A : Type 0} → Run V A → (A → Heap V → List (Reply V)) → List (Reply V)
  replies (ok a h) rest = rest a h
  replies (exited s) rest = stopped s ∷ []
  replies fault rest = crashed ∷ []
  replies out_of_fuel rest = crashed ∷ []

  -- With fuel for the loop of each clear.
  unfoldable pub run : ℕ → List (Call V) → MessageQueue → Heap V → List (Reply V)
  run fuel [] q h = []
  run fuel (send a v ∷ calls) q h =
      replies (enqueue_message a v q h) (λ q' g. done ∷ run fuel calls q' g)
  run fuel (receive ∷ calls) q h =
      replies (dequeue_message q h) (λ (m, q') g. received m ∷ run fuel calls q' g)
  run fuel (clear ∷ calls) q h =
      replies (clear_message_queue fuel q h) (λ (q', freed) g. done ∷ run fuel calls q' g)

  abbrev Then : {A : Type 0} → Run V A → (A → Heap V → Type 0) → Type 0
  Then (ok a h) P = P a h
  Then (exited s) P = Unit
  Then fault P = Unit
  Then out_of_fuel P = Unit

  -- On this run `malloc` hands out no address that is in use.
  unfoldable pub Serves : ℕ → List (Call V) → MessageQueue → Heap V → Type 0
  Serves fuel [] q h = Unit
  Serves fuel (send a v ∷ calls) q h =
      (a ≢ null → h a ≡ none) × Then (enqueue_message a v q h) (λ q' g. Serves fuel calls q' g)
  Serves fuel (receive ∷ calls) q h = Then (dequeue_message q h) (λ r g. Serves fuel calls r.1 g)
  Serves fuel (clear ∷ calls) q h =
      Then (clear_message_queue fuel q h) (λ r g. Serves fuel calls r.0 g)

  abbrev contents : List (Ptr × V) → List V
  contents cs = map (λ c. c.1) cs

  -- The same from a queue that holds these nodes, with fuel for as many nodes as there may be.
  messages_refine :
      (fuel : ℕ) (calls : List (Call V)) (q : MessageQueue) (h : Heap V) (cs : List (Ptr × V))
      → IsMessageQueue h q cs
      → length cs + length calls < fuel
      → Serves fuel calls q h
      → run fuel calls q h ≡ spec calls (contents cs)
  unfolding run spec Serves
  messages_refine fuel [] q h cs is enough s = refl
  messages_refine fuel (send a v ∷ calls) q h cs is enough s = elim (ℕ_discrete a null) [
    | yes e ↦ rw (e, enqueue_message-null)
    | no ne ↦
        let (q', g, e, kept) =
          Returns-cases _ _ (enqueue_message-IsMessageQueue a v h q cs is ne (s.0 ne)) in
        let s' = subst (λ r. Then r (λ q' g. Serves fuel calls q' g)) e s.1 in
        let size : length (cs ++ (a, v) ∷ []) + length calls < fuel =
          omega (arith, length-append cs ((a, v) ∷ [])) in
        rw (e, ==_ne ne, messages_refine fuel calls q' g _ kept size s', map-append)
  ]
  messages_refine fuel (receive ∷ calls) q h [] is enough s =
      let (r, g, e, kept) = Returns-cases _ _ (dequeue_message-Taken h q [] is) in
      let s' = subst (λ r. Then r (λ r g. Serves fuel calls r.1 g)) e s in
      rw (e, kept.0, messages_refine fuel calls r.1 g [] kept.1 (omega arith) s')
  messages_refine fuel (receive ∷ calls) q h (c ∷ cs) is enough s =
      let (r, g, e, kept) = Returns-cases _ _ (dequeue_message-Taken h q (c ∷ cs) is) in
      let s' = subst (λ r. Then r (λ r g. Serves fuel calls r.1 g)) e s in
      rw (e, kept.0, messages_refine fuel calls r.1 g cs kept.1 (omega arith) s')
  messages_refine fuel (clear ∷ calls) q h cs is enough s =
      let (r, g, e, kept) =
        Returns-cases _ _ (clear_message_queue_lem fuel h q cs is (omega arith)) in
      let s' = subst (λ r. Then r (λ r g. Serves fuel calls r.0 g)) e s in
      rw (e, messages_refine fuel calls r.0 g [] kept.0 (omega arith) s')

  -- A client that creates its queue first.
  unfoldable pub session : ℕ → Ptr → List (Call V) → Heap V → List (Reply V)
  session fuel block calls h = replies (create_message_queue block h) (λ q g. run fuel calls q g)

  -- From `createMessageQueue` on, with more fuel than there are calls, a client that sends,
  -- receives and clears is told what a first-in first-out list of messages tells, if `malloc`
  -- hands out no address in use; without memory for a node the program crashes, and without
  -- memory for the queue it is stopped with status 1.
  pub message_session_refines :
      (fuel : ℕ) (block : Ptr) (calls : List (Call V)) (h : Heap V)
      → length calls < fuel
      → Serves fuel calls fresh h
      → session fuel block calls h ≡ (if block == null then stopped 1 ∷ [] else spec calls [])
  unfolding session create_message_queue
  message_session_refines fuel block calls h enough s = elim (ℕ_discrete block null) [
    | yes e ↦ rw e
    | no ne ↦
        let empty : IsMessageQueue h fresh [] = record {
          front_at = refl;
          rear_at = refl;
          free_lock = refl;
          linked = tt;
        } in
        rw (==_ne ne) (messages_refine fuel calls fresh h [] empty (omega arith) s)
  ]
