-- ===== src/Shop/Memory.antt =====
-- The memory that queue.h and messageQueue.h work on: nodes at addresses, as `malloc` and `free`
-- leave them. A node of either file is a payload and a pointer to the next node.
use system_related_in_c.Base.{ℕ, ◌≡◌, refl, ◌≢◌, Option, none, some, ◌==◌, if◌then◌else◌, ==_ne}

abbrev pub Ptr : Type 0
Ptr = ℕ

abbrev pub null : Ptr
null = 0

pub record Node (V : Type 0) : Type 0 where
  pub payload : V
  pub next : Ptr

-- `none` is an address that holds no node: it was never handed out, or has been freed.
abbrev pub Heap : Type 0 → Type 0
Heap V = Ptr → Option (Node V)

abbrev pub cell : {V : Type 0} → V → Ptr → Option (Node V)
cell v q = some (record { payload = v; next = q })

-- How a call ends: it returns, it calls `exit` with a status, or it reads or writes through a
-- pointer that leads to no node. A loop that is given too little fuel ends in `out_of_fuel`.
pub data Run (V A : Type 0) : Type 0 where
  ok : A → Heap V → Run V A
  exited : ℕ → Run V A
  fault : Run V A
  out_of_fuel : Run V A

abbrev pub Cmd : Type 0 → Type 0 → Type 0
Cmd V A = Heap V → Run V A

module _ {V : Type 0} where
  abbrev pub update : Heap V → Ptr → Option (Node V) → Heap V
  update h p c a = if a == p then c else h a

  abbrev pub pure : {A : Type 0} → A → Cmd V A
  pure a h = ok a h

  abbrev pub bind : {A B : Type 0} → Run V A → (A → Cmd V B) → Run V B
  bind (ok a h) k = k a h
  bind (exited s) k = exited s
  bind fault k = fault
  bind out_of_fuel k = out_of_fuel

  infixl 5 ◌>>=◌ ◌>>◌
  abbrev pub ◌>>=◌ : {A B : Type 0} → Cmd V A → (A → Cmd V B) → Cmd V B
  ◌>>=◌ m k h = bind (m h) k

  abbrev pub ◌>>◌ : {B : Type 0} → Cmd V (Unit {0}) → Cmd V B → Cmd V B
  m >> n = m >>= λ _. n

  -- `exit(status)`
  abbrev pub exit : {A : Type 0} → ℕ → Cmd V A
  exit status h = exited status

  -- The fields of `*p`.
  unfoldable pub load : Ptr → Cmd V (Node V)
  load p h = if p == null then fault else elim (h p) [ none ↦ fault | some n ↦ ok n h ]

  -- The fields of the node that `malloc` has just returned.
  unfoldable pub store : Ptr → V → Ptr → Cmd V (Unit {0})
  store p v q h = if p == null then fault else ok tt (update h p (cell v q))

  -- `p->next = q`
  unfoldable pub set_next : Ptr → Ptr → Cmd V (Unit {0})
  unfolding load
  set_next p q = do n ← load p; λ h. ok tt (update h p (cell n.payload q))

  -- `free(p)`
  unfoldable pub free : Ptr → Cmd V (Unit {0})
  unfolding load
  free p = do n ← load p; λ h. ok tt (update h p none)

  pub store-ok :
      (h : Heap V) {p : Ptr} (v : V) (q : Ptr)
      → p ≢ null
      → store p v q h ≡ ok tt (update h p (cell v q))
  unfolding store
  store-ok h v q ne = rw (==_ne ne)

  module _ (h : Heap V) {p q : Ptr} {v : V} (ne : p ≢ null) (at : h p ≡ cell v q) where
    pub load-ok : load p h ≡ ok (record { payload = v; next = q }) h
    unfolding load
    load-ok = rw (==_ne ne, at)

    pub set_next-ok : (r : Ptr) → set_next p r h ≡ ok tt (update h p (cell v r))
    unfolding set_next
    set_next-ok r = rw (==_ne ne, at)

    pub free-ok : free p h ≡ ok tt (update h p none)
    unfolding free
    free-ok = rw (==_ne ne, at)

  -- The call returns, with a result and a memory that satisfy `P`.
  abbrev pub Returns : {A : Type 0} → (A → Heap V → Type 0) → Run V A → Type 0
  Returns P (ok a h) = P a h
  Returns P (exited s) = ⊥
  Returns P fault = ⊥
  Returns P out_of_fuel = ⊥

  -- What a call that returns has returned.
  pub Returns-cases :
      {A : Type 0} (P : A → Heap V → Type 0) (r : Run V A)
      → Returns P r
      → (a : A) × (h : Heap V) × (r ≡ ok a h) × P a h
  Returns-cases P (ok a h) p = (a, h, refl, p)
  Returns-cases P (exited s) p = absurd p
  Returns-cases P fault p = absurd p
  Returns-cases P out_of_fuel p = absurd p
