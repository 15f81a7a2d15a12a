-- ===== src/Shop/Chain.antt =====
-- What a chain of nodes in memory stands for: the addresses and payloads, first to last. The
-- queues of queue.h and messageQueue.h both keep their nodes in one.
use system_related_in_c.Base.{
  ◌≡◌, refl, ◌≢◌, Bool, true, false, ◌||◌, Option, none, some, subst, ap, List, [], ◌∷◌, ◌++◌,
  arith, ◌==◌,
}
use system_related_in_c.Shop.Memory.{Ptr, null, Node, Heap, cell, update}

module _ {V : Type 0} where
  abbrev pub has : Ptr → List (Ptr × V) → Bool
  has a [] = false
  has a ((b, _) ∷ cs) = (a == b) || has a cs

  -- The address that a pointer to these nodes holds.
  abbrev pub first : List (Ptr × V) → Ptr
  first [] = null
  first ((a, _) ∷ cs) = a

  abbrev pub last_cell : Ptr × V → List (Ptr × V) → Ptr × V
  last_cell c [] = c
  last_cell c (d ∷ cs) = last_cell d cs

  abbrev pub rear : List (Ptr × V) → Ptr
  rear [] = null
  rear (c ∷ cs) = (last_cell c cs).0

  -- The nodes stand at distinct addresses, each points to the next, and the last to `NULL`.
  abbrev pub Linked : Heap V → List (Ptr × V) → Type 0
  Linked h [] = Unit
  Linked h ((a, v) ∷ cs) = (a ≢ null) × (h a ≡ cell v (first cs)) × (has a cs ≡ false) × Linked h cs

  pub has-append_one :
      (a b : Ptr) (v : V) (cs : List (Ptr × V)) → has a (cs ++ (b, v) ∷ []) ≡ (has a cs || (a == b))
  has-append_one a b v [] = ground arith
  has-append_one a b v (c ∷ cs) = ground (arith, has-append_one a b v cs)

  pub has-last_cell : (c : Ptr × V) (cs : List (Ptr × V)) → has (last_cell c cs).0 (c ∷ cs) ≡ true
  has-last_cell c [] = ground arith
  has-last_cell c (d ∷ cs) = ground (arith, has-last_cell d cs)

  pub update_ne :
      (h : Heap V) (a : Ptr) (n : Option (Node V)) {b : Ptr} → b ≢ a → update h a n b ≡ h b
  update_ne h a n {b} ne = ground arith

  pub update_self : (h : Heap V) (a : Ptr) (n : Option (Node V)) → update h a n a ≡ n
  update_self h a n = ground arith

  -- An address on the chain is none that is not.
  pub ne_of_has : (a b : Ptr) (cs : List (Ptr × V)) → has a cs ≡ false → has b cs ≡ true → a ≢ b
  ne_of_has a b cs out on e = cc (subst (λ x. has x cs ≡ false) e out)

  pub ne_of_none : (h : Heap V) (a b : Ptr) {n : Node V} → h a ≡ some n → h b ≡ none → a ≢ b
  ne_of_none h a b at_a at_b e = cc (ap h e)

  pub Linked-update :
      (h : Heap V) (a : Ptr) (n : Option (Node V)) (cs : List (Ptr × V))
      → has a cs ≡ false
      → Linked h cs
      → Linked (update h a n) cs
  Linked-update h a n [] out l = tt
  Linked-update h a n ((b, v) ∷ cs) out l =
      (l.0, ground arith, l.2, Linked-update h a n cs (ground arith) l.3)

  -- An address that holds no node is not on the chain.
  pub not-has_of_none :
      (h : Heap V) (a : Ptr) (cs : List (Ptr × V)) → h a ≡ none → Linked h cs → has a cs ≡ false
  not-has_of_none h a [] e l = refl
  not-has_of_none h a ((b, v) ∷ cs) e l = ground (arith, not-has_of_none h a cs e l.3)

  pub last_cell-Linked :
      (h : Heap V) (c : Ptr × V) (cs : List (Ptr × V))
      → Linked h (c ∷ cs)
      → let (b, w) = last_cell c cs in (b ≢ null) × (h b ≡ cell w null)
  last_cell-Linked h c [] l = (l.0, l.1)
  last_cell-Linked h c (d ∷ cs) l = last_cell-Linked h d cs l.3

  -- A fresh node behind the last one extends the chain.
  pub Linked-append_one :
      (h : Heap V) (c : Ptr × V) (cs : List (Ptr × V)) (a : Ptr) (v : V)
      → Linked h (c ∷ cs)
      → a ≢ null
      → h a ≡ none
      → let (b, w) = last_cell c cs in
        Linked (update (update h a (cell v null)) b (cell w a)) (c ∷ cs ++ (a, v) ∷ [])
  Linked-append_one h c [] a v l ne unused =
      (l.0, ground arith, ground arith, (ne, ground arith, refl, tt))
  Linked-append_one h c (d ∷ cs) a v l ne unused = (
    l.0,
    rw
        (
          update_ne _ _ _ (ne_of_has _ _ (d ∷ cs) l.2 (has-last_cell d cs)),
          update_ne h a (cell v null) (ne_of_none h c.0 a l.1 unused),
        )
        l.1,
    rw (has-append_one c.0 a v (d ∷ cs), l.2) (ground (arith, ne_of_none h c.0 a l.1 unused)),
    Linked-append_one h d cs a v l.3 ne unused,
  )

  pub last_cell-append_one :
      (c : Ptr × V) (cs : List (Ptr × V)) (a : Ptr) (v : V)
      → last_cell c (cs ++ (a, v) ∷ []) ≡ (a, v)
  last_cell-append_one c [] a v = refl
  last_cell-append_one c (d ∷ cs) a v = last_cell-append_one d cs a v
