-- ===== src/Shop/MessageQueue/Refine.antt =====
-- The operations of messageQueue.h against a first-in first-out list of messages.
use system_related_in_c.Base.{
  ℕ, zero, suc, ◌<◌, ◌≡◌, refl, ap, sym, ◌∙◌, ◌≢◌, false, Option, none, some, List, [], ◌∷◌, ◌++◌,
  arith, ==_ne, length, map, if◌then◌else◌, ◌||◌, ◌==◌,
}
use system_related_in_c.Shop.Memory.{
  Ptr, null, Heap, fault, Returns, Returns-cases, update, cell, load-ok, free-ok, set_next-ok,
  store, store-ok,
}
use system_related_in_c.Shop.Chain.{
  has, first, rear, Linked, Linked-update, last_cell-Linked, Linked-append_one,
  last_cell-append_one, update_ne, ne_of_none, update_self,
}
use system_related_in_c.Shop.MessageQueue.{
  MessageQueue, enqueue_message, dequeue_message, clear_loop, clear_message_queue,
}

module _ {V : Type 0} where
  -- The queue holds these nodes, and its mutex is free.
  pub record IsMessageQueue (h : Heap V) (q : MessageQueue) (cs : List (Ptr × V)) : Type 0 where
    pub front_at : q.front ≡ first cs
    pub rear_at : q.rear ≡ rear cs
    pub free_lock : q.locked ≡ false
    pub linked : Linked h cs

  -- Without memory for a node the write goes through `NULL`.
  pub enqueue_message-null :
      (v : V) (h : Heap V) (q : MessageQueue) → enqueue_message null v q h ≡ fault
  unfolding enqueue_message store
  enqueue_message-null v h q = refl

  -- With memory for a node at an unused address, `enqueueMessage` returns, the queue holds the new
  -- message behind its others, and its mutex is free again.
  pub enqueue_message-IsMessageQueue :
      (a : Ptr) (v : V) (h : Heap V) (q : MessageQueue) (cs : List (Ptr × V))
      → IsMessageQueue h q cs
      → a ≢ null
      → h a ≡ none
      → Returns (λ q' g. IsMessageQueue g q' (cs ++ (a, v) ∷ [])) (enqueue_message a v q h)
  unfolding enqueue_message
  enqueue_message-IsMessageQueue a v h q [] is ne unused =
      rw (store-ok h v null ne, is.rear_at)
        (record {
          front_at = refl;
          rear_at = refl;
          free_lock = refl;
          linked = (ne, update_self h a (cell v null), refl, tt);
        })
  enqueue_message-IsMessageQueue a v h q (c ∷ cs) is ne unused =
      let (last_ne, last_at) = last_cell-Linked h c cs is.linked in
      let at = update_ne h a (cell v null) (ne_of_none h _ a last_at unused) ∙ last_at in
      rw
        (
          store-ok h v null ne,
          is.rear_at,
          ==_ne last_ne,
          set_next-ok (update h a (cell v null)) last_ne at a,
        )
        (record {
          front_at = is.front_at;
          rear_at = ap (λ d. d.0) (sym (last_cell-append_one c cs a v));
          free_lock = refl;
          linked = Linked-append_one h c cs a v is.linked ne unused;
        })

  -- What `dequeueMessage` returns and leaves of these nodes.
  abbrev pub Taken : Heap V → List (Ptr × V) → Option V × MessageQueue → Heap V → Type 0
  Taken h [] (out, q') g = (out ≡ none) × IsMessageQueue g q' [] × (g ≡ h)
  Taken h ((a, v) ∷ cs) (out, q') g =
      (out ≡ some v) × IsMessageQueue g q' cs × (g ≡ update h a none)

  -- `dequeueMessage` returns `NULL` from an empty queue and changes nothing, and else it returns the
  -- first message, keeps the others in their order, and frees the first node and nothing else. The
  -- mutex is free again either way.
  pub dequeue_message-Taken :
      (h : Heap V) (q : MessageQueue) (cs : List (Ptr × V))
      → IsMessageQueue h q cs
      → Returns (Taken h cs) (dequeue_message q h)
  unfolding dequeue_message
  dequeue_message-Taken h q [] is =
      rw is.front_at (
        refl,
        record { front_at = refl; rear_at = is.rear_at; free_lock = refl; linked = tt },
        refl,
      )
  dequeue_message-Taken h q (c ∷ []) is =
      rw
        (
          is.front_at,
          ==_ne is.linked.0,
          load-ok h is.linked.0 is.linked.1,
          free-ok h is.linked.0 is.linked.1,
        )
        (refl, record { front_at = refl; rear_at = refl; free_lock = refl; linked = tt }, refl)
  dequeue_message-Taken h q (c ∷ d ∷ cs) is =
      rw
        (
          is.front_at,
          ==_ne is.linked.0,
          load-ok h is.linked.0 is.linked.1,
          free-ok h is.linked.0 is.linked.1,
          ==_ne is.linked.3.0,
        )
        (
          refl,
          record {
            front_at = refl;
            rear_at = is.rear_at;
            free_lock = refl;
            linked = Linked-update h c.0 none (d ∷ cs) is.linked.2 is.linked.3;
          },
          refl,
        )

  -- `g` is `h` less the nodes of `cs`.
  abbrev pub Without : List (Ptr × V) → Heap V → Heap V → Type 0
  Without cs h g = (p : Ptr) → g p ≡ (if has p cs then none else h p)

  -- The copies that the nodes point to, first to last.
  abbrev pub copies : List (Ptr × V) → List V
  copies cs = map (λ c. c.1) cs

  clear_loop-Without :
      (k : ℕ) (h : Heap V) (cs : List (Ptr × V))
      → Linked h cs
      → length cs < k
      → Returns (λ freed g. (freed ≡ copies cs) × Without cs h g) (clear_loop k (first cs) h)
  unfolding clear_loop
  clear_loop-Without zero h cs l fuel = absurd (omega arith)
  clear_loop-Without (suc k) h [] l fuel = (refl, λ p. refl)
  clear_loop-Without (suc k) h (c ∷ cs) l fuel =
      let (freed, g, e, (all, gone)) =
        Returns-cases (λ freed g. (freed ≡ copies cs) × Without cs (update h c.0 none) g)
          (clear_loop k (first cs) (update h c.0 none))
          (clear_loop-Without k (update h c.0 none) cs (Linked-update h c.0 none cs l.2 l.3)
            (omega arith)) in
      rw (==_ne l.0, load-ok h l.0 l.1, free-ok h l.0 l.1, e)
        (ap (λ ms. c.1 ∷ ms) all, λ p. gone p ∙ split p)
    where
      split :
          (p : Ptr)
          → (if has p cs then none else update h c.0 none p)
            ≡ (if (p == c.0) || has p cs then none else h p)
      split p = ground arith

  pub clear_message_queue_lem :
      (fuel : ℕ) (h : Heap V) (q : MessageQueue) (cs : List (Ptr × V))
      → IsMessageQueue h q cs
      → length cs < fuel
      → Returns
          (λ (q', freed) g. IsMessageQueue g q' [] × (freed ≡ copies cs) × Without cs h g)
          (clear_message_queue fuel q h)
  unfolding clear_message_queue
  clear_message_queue_lem fuel h q cs is enough =
      let (freed, g, e, all) =
        Returns-cases (λ freed g. (freed ≡ copies cs) × Without cs h g) (clear_loop fuel (first cs) h)
          (clear_loop-Without fuel h cs is.linked enough) in
      rw (is.front_at, e)
        (record { front_at = refl; rear_at = refl; free_lock = refl; linked = tt }, all.0, all.1)
