-- ===== src/Shop/Queue/Refine.antt =====
-- The operations of queue.h against a first-in first-out list of order ids.
use system_related_in_c.Base.{
  ℕ, zero, suc, ◌+◌, ◌<◌, ◌≡◌, refl, ◌≢◌, false, none, List, [], ◌∷◌, ◌++◌, map, arith, length,
  length-append, ==_ne, ◌∙◌, sym, ap,
}
use system_related_in_c.Shop.Memory.{
  Ptr, null, Heap, ok, exited, set_next-ok, free-ok, load-ok, store-ok, Returns, update, cell,
}
use system_related_in_c.Shop.Chain.{
  has, first, rear, Linked, has-last_cell, Linked-update, last_cell-Linked, Linked-append_one,
  last_cell-append_one, update_ne, ne_of_none, ne_of_has, update_self,
}
use system_related_in_c.Shop.Queue.{Queue, enqueue, dequeue, display_loop, display_queue}

module _ {V : Type 0} where
  -- The queue holds these nodes, first to last.
  pub record IsQueue (h : Heap V) (q : Queue) (cs : List (Ptr × V)) : Type 0 where
    pub front_at : q.front ≡ first cs
    pub rear_at : q.rear ≡ rear cs
    pub counted : q.size ≡ length cs
    pub linked : Linked h cs

  -- Memory is unchanged but at the node `a` and at the nodes of `cs`.
  abbrev pub Spares : Ptr → List (Ptr × V) → Heap V → Heap V → Type 0
  Spares a cs h g = (p : Ptr) → p ≢ a → has p cs ≡ false → g p ≡ h p

  -- With memory for a node at an unused address, `enqueue` returns, the queue holds the new node
  -- behind its others, and no other memory than theirs has changed.
  pub enqueue-IsQueue :
      (a : Ptr) (v : V) (h : Heap V) (q : Queue) (cs : List (Ptr × V))
      → IsQueue h q cs
      → a ≢ null
      → h a ≡ none
      → Returns (λ q' g. IsQueue g q' (cs ++ (a, v) ∷ []) × Spares a cs h g) (enqueue a v q h)
  unfolding enqueue
  enqueue-IsQueue a v h q [] is ne unused =
      rw (is.rear_at, ==_ne ne, store-ok h v null ne)
        (
          record {
            front_at = refl;
            rear_at = refl;
            counted = omega (arith, is.counted);
            linked = (ne, update_self h a (cell v null), refl, tt);
          },
          λ p p_ne out. update_ne h a (cell v null) p_ne,
        )
  enqueue-IsQueue a v h q (c ∷ cs) is ne unused =
      let (last_ne, last_at) = last_cell-Linked h c cs is.linked in
      let at = update_ne h a (cell v null) (ne_of_none h _ a last_at unused) ∙ last_at in
      rw
        (
          is.rear_at,
          ==_ne ne,
          ==_ne last_ne,
          store-ok h v null ne,
          set_next-ok (update h a (cell v null)) last_ne at a,
        )
        (
          record {
            front_at = is.front_at;
            rear_at = ap (λ d. d.0) (sym (last_cell-append_one c cs a v));
            counted = omega (arith, is.counted, length-append {0} cs ((a, v) ∷ []));
            linked = Linked-append_one h c cs a v is.linked ne unused;
          },
          λ p p_ne out.
              update_ne (update h a (cell v null)) _ _
                (ne_of_has p _ (c ∷ cs) out (has-last_cell c cs))
              ∙ update_ne h a (cell v null) p_ne,
        )

  -- Without memory for a node `enqueue` exits.
  pub enqueue-null : (v : V) (h : Heap V) (q : Queue) → enqueue null v q h ≡ exited 1
  unfolding enqueue
  enqueue-null v h q = refl

  -- `dequeue` of an empty queue exits.
  pub dequeue-empty : (h : Heap V) (q : Queue) → IsQueue h q [] → dequeue q h ≡ exited 1
  unfolding dequeue
  dequeue-empty h q is = rw is.front_at

  abbrev pub Dequeued : Heap V → Ptr → V → List (Ptr × V) → V × Queue → Heap V → Type 0
  Dequeued h a v cs (x, q) g = (x ≡ v) × IsQueue g q cs × (g ≡ update h a none)

  -- `dequeue` of a queue with a node returns the value of the first one, keeps the other nodes in
  -- their order, and frees the first node and nothing else.
  pub dequeue-IsQueue :
      (a : Ptr) (v : V) (h : Heap V) (q : Queue) (cs : List (Ptr × V))
      → IsQueue h q ((a, v) ∷ cs)
      → Returns (Dequeued h a v cs) (dequeue q h)
  unfolding dequeue
  dequeue-IsQueue a v h q [] is =
      rw
        (
          is.front_at,
          ==_ne is.linked.0,
          load-ok h is.linked.0 is.linked.1,
          free-ok h is.linked.0 is.linked.1,
        )
        (
          refl,
          record {
            front_at = refl;
            rear_at = refl;
            counted = omega (arith, is.counted);
            linked = tt;
          },
          refl,
        )
  dequeue-IsQueue a v h q (d ∷ cs) is =
      rw
        (
          is.front_at,
          ==_ne is.linked.0,
          load-ok h is.linked.0 is.linked.1,
          free-ok h is.linked.0 is.linked.1,
          ==_ne is.linked.3.0,
        )
        (
          refl,
          record {
            front_at = refl;
            rear_at = is.rear_at;
            counted = omega (arith, is.counted);
            linked = Linked-update h a none (d ∷ cs) is.linked.2 is.linked.3;
          },
          refl,
        )

  display_loop-Linked :
      (k : ℕ) (h : Heap V) (cs : List (Ptr × V))
      → Linked h cs
      → length cs < k
      → display_loop k (first cs) h ≡ ok (map (λ c. c.1) cs) h
  unfolding display_loop
  display_loop-Linked zero h cs l fuel = absurd (omega arith)
  display_loop-Linked (suc k) h [] l fuel = refl
  display_loop-Linked (suc k) h (c ∷ cs) l fuel =
      rw (==_ne l.0, load-ok h l.0 l.1, display_loop-Linked k h cs l.3 (omega arith))

  -- `displayQueue` ends, and shows the payloads first to last, with the memory as it was.
  pub display_queue_lem :
      (h : Heap V) (q : Queue) (cs : List (Ptr × V))
      → IsQueue h q cs
      → display_queue q h ≡ ok (map (λ c. c.1) cs) h
  unfolding display_queue
  display_queue_lem h q cs is =
      rw is.front_at (display_loop-Linked (q.size + 1) h cs is.linked (omega (arith, is.counted)))
