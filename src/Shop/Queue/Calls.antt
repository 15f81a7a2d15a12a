-- ===== src/Shop/Queue/Calls.antt =====
-- A client's calls of queue.h, one after the other, against the first-in first-out list.
use system_related_in_c.Base.{
  suc, ◌≡◌, refl, ap, sym, ◌∙◌, ◌≢◌, none, List, [], ◌∷◌, map, ◌==◌, ==_ne, if◌then◌else◌, length,
  ℕ_discrete, subst, map-append,
}
use system_related_in_c.Shop.Memory.{
  Ptr, null, Heap, Run, ok, exited, fault, out_of_fuel, Returns-cases,
}
use system_related_in_c.Shop.Fifo
use system_related_in_c.Shop.Fifo.{
  Call, put, get, ask_empty, ask_size, Reply, done, got, flag, number, stopped, broken, is_nil,
}
use system_related_in_c.Shop.Queue.{
  Queue, queue, return_size, is_empty_queue, create_queue, enqueue, dequeue,
}
use system_related_in_c.Shop.Queue.Refine.{
  IsQueue, enqueue-IsQueue, enqueue-null, dequeue-empty, dequeue-IsQueue,
}

module _ {V : Type 0} where
  abbrev pub replies : {A : Type 0} → Run V A → (A → Heap V → List (Reply V)) → List (Reply V)
  replies (ok a h) rest = rest a h
  replies (exited s) rest = stopped s ∷ []
  replies fault rest = broken ∷ []
  replies out_of_fuel rest = broken ∷ []

  unfoldable pub run : List (Call V) → Queue → Heap V → List (Reply V)
  run [] q h = []
  run (put a v ∷ calls) q h = replies (enqueue a v q h) (λ q' g. done ∷ run calls q' g)
  run (get ∷ calls) q h = replies (dequeue q h) (λ (x, q') g. got x ∷ run calls q' g)
  run (ask_empty ∷ calls) q h = flag (is_empty_queue q) ∷ run calls q h
  run (ask_size ∷ calls) q h = number (return_size q) ∷ run calls q h

  abbrev Then : {A : Type 0} → Run V A → (A → Heap V → Type 0) → Type 0
  Then (ok a h) P = P a h
  Then (exited s) P = Unit
  Then fault P = Unit
  Then out_of_fuel P = Unit

  -- On this run `malloc` hands out no address that is in use. It may return `NULL`, and an address
  -- that has been freed.
  unfoldable pub Serves : List (Call V) → Queue → Heap V → Type 0
  Serves [] q h = Unit
  Serves (put a v ∷ calls) q h =
      (a ≢ null → h a ≡ none) × Then (enqueue a v q h) (λ q' g. Serves calls q' g)
  Serves (get ∷ calls) q h = Then (dequeue q h) (λ r g. Serves calls r.1 g)
  Serves (ask_empty ∷ calls) q h = Serves calls q h
  Serves (ask_size ∷ calls) q h = Serves calls q h

  abbrev contents : List (Ptr × V) → List V
  contents cs = map (λ c. c.1) cs

  length-contents : (cs : List (Ptr × V)) → length (contents cs) ≡ length cs
  length-contents [] = refl
  length-contents (c ∷ cs) = ap suc (length-contents cs)

  is_empty_queue-IsQueue :
      (h : Heap V) (q : Queue) (cs : List (Ptr × V))
      → IsQueue h q cs
      → is_empty_queue q ≡ is_nil (contents cs)
  is_empty_queue-IsQueue h q [] is = rw is.front_at
  is_empty_queue-IsQueue h q (c ∷ cs) is = rw is.front_at (==_ne is.linked.0)

  return_size-IsQueue :
      (h : Heap V) (q : Queue) (cs : List (Ptr × V))
      → IsQueue h q cs
      → return_size q ≡ length (contents cs)
  return_size-IsQueue h q cs is = is.counted ∙ sym (length-contents cs)

  -- From a queue that holds these nodes, a client is told what the first-in first-out list of their
  -- payloads tells, up to the first call that stops it, if `malloc` hands out no address in use.
  pub run_refines :
      (calls : List (Call V)) (q : Queue) (h : Heap V) (cs : List (Ptr × V))
      → IsQueue h q cs
      → Serves calls q h
      → run calls q h ≡ Fifo.run calls (contents cs)
  unfolding run Fifo.run Serves
  run_refines [] q h cs is s = refl
  run_refines (put a v ∷ calls) q h cs is s = elim (ℕ_discrete a null) [
    | yes e ↦ rw (e, enqueue-null)
    | no ne ↦
        let (q', g, e, kept) = Returns-cases _ _ (enqueue-IsQueue a v h q cs is ne (s.0 ne)) in
        let s' = subst (λ r. Then r (λ q' g. Serves calls q' g)) e s.1 in
        rw (e, ==_ne ne, run_refines calls q' g _ kept.0 s', map-append)
  ]
  run_refines (get ∷ calls) q h [] is s = rw (dequeue-empty h q is)
  run_refines (get ∷ calls) q h ((a, v) ∷ cs) is s =
      let (r, g, e, kept) = Returns-cases _ _ (dequeue-IsQueue a v h q cs is) in
      let s' = subst (λ r. Then r (λ r g. Serves calls r.1 g)) e s in
      rw (e, kept.0, run_refines calls r.1 g cs kept.1 s')
  run_refines (ask_empty ∷ calls) q h cs is s =
      rw (is_empty_queue-IsQueue h q cs is, run_refines calls q h cs is s)
  run_refines (ask_size ∷ calls) q h cs is s =
      rw (run_refines calls q h cs is s, return_size-IsQueue h q cs is)

  -- A client that creates its queue first.
  unfoldable pub session : Ptr → List (Call V) → Heap V → List (Reply V)
  session block calls h = replies (create_queue block h) (λ q g. run calls q g)

  -- From `createQueue` on, a client is told what an empty first-in first-out list tells, if `malloc`
  -- hands out no address in use; without memory for the queue it is stopped with status 1.
  pub session_refines :
      (block : Ptr) (calls : List (Call V)) (h : Heap V)
      → Serves calls (queue null null 0) h
      → session block calls h ≡ (if block == null then stopped 1 ∷ [] else Fifo.run calls [])
  unfolding session create_queue
  session_refines block calls h s = elim (ℕ_discrete block null) [
    | yes e ↦ rw e
    | no ne ↦
        let empty : IsQueue h (queue null null 0) [] = record {
          front_at = refl;
          rear_at = refl;
          counted = refl;
          linked = tt;
        } in
        rw (==_ne ne) (run_refines calls (queue null null 0) h [] empty s)
  ]
