-- ===== src/Copier/Buffer/Ring.antt =====
-- The ring against a first-in first-out list of tasks.
use native.Mathlib.Nat.{mod-eq_of_lt, mod-eq-sub-mod}
use system_related_in_c.Base.{
  ℕ, zero, suc, ◌+◌, ◌-◌, ◌%◌, ◌≤◌, ◌<◌, ◌≡◌, ◌≢◌, refl, sym, ap, ◌∙◌, subst, some, List, [], ◌∷◌,
  ◌++◌, arith, length, length-append, length-set, get_elem?, set, dec_lt,
}
use system_related_in_c.Copier.Buffer.{
  FileNames, Buffer, store_task, advance_in, read_task, advance_out,
}

-- The buffer holds these tasks, the oldest first.
pub record Holds (b : Buffer) (xs : List FileNames) : Type 0 where
  pub room : length b.tasks ≡ b.buff_size
  pub out_in : b.out_index < b.buff_size
  pub counted : b.count ≡ length xs
  pub fits : length xs ≤ b.buff_size
  pub in_at : b.in_index ≡ (b.out_index + b.count) % b.buff_size
  pub found :
      (k : ℕ) → k < length xs → get_elem? b.tasks ((b.out_index + k) % b.buff_size) ≡ get_elem? xs k

-- An index of the ring, which goes round once at most.
data Index (a n : ℕ) : Type 0 where
  straight : a < n → a % n ≡ a → Index a n
  round : n ≤ a → a % n ≡ a - n → Index a n

index : (a n : ℕ) → a < n + n → Index a n
index a n lt = elim (dec_lt a n) [
  | yes l ↦ straight l (mod-eq_of_lt l)
  | no g ↦ round (omega arith) (mod-eq-sub-mod (omega arith) ∙ mod-eq_of_lt (omega arith))
]

-- Where the ring has room, the place behind the tasks is none of theirs.
index-ne : (o n j k : ℕ) → o < n → j < k → k < n → (o + j) % n ≢ (o + k) % n
index-ne o n j k o_in lt k_in e = elim (index (o + j) n (omega arith)) [
  | straight l p ↦ elim (index (o + k) n (omega arith)) [
    | straight l' p' ↦ absurd (omega (arith, e, p, p'))
    | round g' p' ↦ absurd (omega (arith, e, p, p'))
  ]
  | round g p ↦ elim (index (o + k) n (omega arith)) [
    | straight l' p' ↦ absurd (omega (arith, e, p, p'))
    | round g' p' ↦ absurd (omega (arith, e, p, p'))
  ]
]

index-bound : (a n : ℕ) → a < n + n → a % n < n
index-bound a n lt = elim (index a n lt) [
  | straight l p ↦ omega (arith, p)
  | round g p ↦ omega (arith, p)
]

-- One step on, an index goes round at the end.
index-next : (o n k : ℕ) → o < n → k < n → ((o + 1) % n + k) % n ≡ (o + suc k) % n
index-next o n k o_in k_in = elim (index (o + 1) n (omega arith)) [
  | straight l p ↦ ap (λ a. a % n) (omega (arith, p))
  | round g p ↦
      let low : (o + 1) % n + k ≡ k = omega (arith, p) in
      ap (λ a. a % n) low ∙ sym (mod-eq-sub-mod (omega arith) ∙ ap (λ a. a % n) (omega arith))
]

index-suc : (a n : ℕ) → 0 < n → a < n + n → (a % n + 1) % n ≡ (a + 1) % n
index-suc a n pos lt = elim (index a n lt) [
  | straight l p ↦ ap (λ i. (i + 1) % n) p
  | round g p ↦
      ap (λ i. (i + 1) % n) p ∙ sym (mod-eq-sub-mod (omega arith) ∙ ap (λ i. i % n) (omega arith))
]

module _ {A : Type 0} where
  get_elem?-set_self :
      (xs : List A) (i : ℕ) (v : A) → i < length xs → get_elem? (set xs i v) i ≡ some v
  get_elem?-set_self [] i v lt = absurd (omega arith)
  get_elem?-set_self (x ∷ xs) zero v lt = refl
  get_elem?-set_self (x ∷ xs) (suc i) v lt = get_elem?-set_self xs i v (omega arith)

  get_elem?-set_ne :
      (xs : List A) (i j : ℕ) (v : A) → j ≢ i → get_elem? (set xs i v) j ≡ get_elem? xs j
  get_elem?-set_ne [] i j v ne = refl
  get_elem?-set_ne (x ∷ xs) zero zero v ne = absurd (ne refl)
  get_elem?-set_ne (x ∷ xs) zero (suc j) v ne = refl
  get_elem?-set_ne (x ∷ xs) (suc i) zero v ne = refl
  get_elem?-set_ne (x ∷ xs) (suc i) (suc j) v ne = get_elem?-set_ne xs i j v (λ e. ne (ap suc e))

  get_elem?-append_below :
      (xs ys : List A) (i : ℕ) → i < length xs → get_elem? (xs ++ ys) i ≡ get_elem? xs i
  get_elem?-append_below [] ys i lt = absurd (omega arith)
  get_elem?-append_below (x ∷ xs) ys zero lt = refl
  get_elem?-append_below (x ∷ xs) ys (suc i) lt = get_elem?-append_below xs ys i (omega arith)

  get_elem?-append_end :
      (xs : List A) (y : A) (i : ℕ) → i ≡ length xs → get_elem? (xs ++ y ∷ []) i ≡ some y
  get_elem?-append_end [] y zero e = refl
  get_elem?-append_end [] y (suc i) e = absurd (omega arith)
  get_elem?-append_end (x ∷ xs) y zero e = absurd (omega arith)
  get_elem?-append_end (x ∷ xs) y (suc i) e = get_elem?-append_end xs y i (omega arith)

module _ {b : Buffer} {xs : List FileNames} (h : Holds b xs) where
  -- The manager's copy goes to a free place.
  pub store_task-Holds : (file : FileNames) → length xs < b.buff_size → Holds (store_task file b) xs
  store_task-Holds file free = record {
    room = length-set b.tasks b.in_index file ∙ h.room;
    out_in = h.out_in;
    counted = h.counted;
    fits = h.fits;
    in_at = h.in_at;
    found = λ k lt.
        get_elem?-set_ne b.tasks b.in_index _ file (λ e.
          index-ne b.out_index b.buff_size k (length xs) h.out_in lt free
            (e ∙ h.in_at ∙ ap (λ c. (b.out_index + c) % b.buff_size) h.counted))
        ∙ h.found k lt;
  }

  in-bound : length xs < b.buff_size → b.in_index < length b.tasks
  in-bound free =
      subst (λ i. i < length b.tasks) (sym h.in_at)
        (subst (λ n. (b.out_index + b.count) % b.buff_size < n) (sym h.room)
          (index-bound (b.out_index + b.count) b.buff_size (omega (arith, h))))

  pub store_task-found :
      (file : FileNames)
      → length xs < b.buff_size
      → get_elem? (store_task file b).tasks b.in_index ≡ some file
  store_task-found file free = get_elem?-set_self b.tasks b.in_index file (in-bound free)

  -- The task that the manager has stored is the last one.
  pub advance_in-Holds :
      (file : FileNames)
      → length xs < b.buff_size
      → get_elem? b.tasks b.in_index ≡ some file
      → Holds (advance_in b) (xs ++ file ∷ [])
  advance_in-Holds file free stored = record {
    room = h.room;
    out_in = h.out_in;
    counted = omega (arith, h, length-append xs (file ∷ []));
    fits = omega (arith, free, length-append xs (file ∷ []));
    in_at =
        ap (λ i. (i + 1) % b.buff_size) h.in_at
        ∙ index-suc (b.out_index + b.count) b.buff_size (omega (arith, h)) (omega (arith, h))
        ∙ ap (λ i. i % b.buff_size) (omega arith);
    found = λ k lt. elim (dec_lt k (length xs)) [
      | yes l ↦ h.found k l ∙ sym (get_elem?-append_below xs (file ∷ []) k l)
      | no g ↦
          let last : k ≡ length xs = omega (arith, length-append xs (file ∷ [])) in
          let at : (b.out_index + k) % b.buff_size ≡ b.in_index =
            ap (λ c. (b.out_index + c) % b.buff_size) (last ∙ sym h.counted) ∙ sym h.in_at in
          ap (get_elem? b.tasks) at ∙ stored ∙ sym (get_elem?-append_end xs file k last)
    ];
  }

  -- A worker reads the oldest task.
  pub read_task-Holds : {x : FileNames} {ys : List FileNames} → xs ≡ x ∷ ys → read_task b ≡ some x
  read_task-Holds {x} {ys} e =
      ap (get_elem? b.tasks) (sym (mod-eq_of_lt h.out_in) ∙ ap (λ i. i % b.buff_size) (omega arith))
      ∙ h.found 0 (rw e (omega arith))
      ∙ ap (λ l. get_elem? l 0) e

  -- And leaves the others.
  pub advance_out-Holds :
      {x : FileNames} {ys : List FileNames} → xs ≡ x ∷ ys → Holds (advance_out b) ys
  advance_out-Holds {x} {ys} e =
      let counted : length xs ≡ suc (length ys) = ap length e in
      record {
        room = h.room;
        out_in = index-bound (b.out_index + 1) b.buff_size (omega (arith, h));
        counted = omega (arith, h);
        fits = omega (arith, h);
        in_at =
            h.in_at
            ∙ ap (λ i. i % b.buff_size) (omega (arith, h))
            ∙ sym (index-next b.out_index b.buff_size (b.count - 1) h.out_in (omega (arith, h)));
        found = λ k lt.
            ap (get_elem? b.tasks)
              (index-next b.out_index b.buff_size k h.out_in (omega (arith, h)))
            ∙ h.found (suc k) (omega arith)
            ∙ ap (λ l. get_elem? l (suc k)) e;
      }

pub empty-Holds :
    (tasks : List FileNames)
    → 0 < length tasks
    → Holds
        (record { tasks = tasks; in_index = 0; out_index = 0; count = 0; buff_size = length tasks })
        []
empty-Holds tasks room = record {
  room = refl;
  out_in = room;
  counted = refl;
  fits = omega arith;
  in_at = sym (mod-eq_of_lt room);
  found = λ k lt. absurd (omega arith);
}

pub nonempty-cons :
    (xs : List FileNames) → 0 < length xs → (x : FileNames) × (ys : List FileNames) × (xs ≡ x ∷ ys)
nonempty-cons [] lt = absurd (omega arith)
nonempty-cons (x ∷ ys) lt = (x, ys, refl)
