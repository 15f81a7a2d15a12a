-- ===== src/Base/Lists.antt =====
-- Lists measured and indexed by native numbers, under the library's names.
use Prim.Native.Nat.{ℕ, zero, suc, ◌+◌, ◌*◌, ◌≤◌, ◌<◌}
use mathlib.Core.Path.{◌≡◌, refl, ap}
use mathlib.Core.Logic.{◌≢◌, ◌⊎◌, inl, inr}
use mathlib.Core.List.{List, [], ◌∷◌, ◌++◌}
use mathlib.Core.Option.{Option, none, some, some-injective}
use native.Mathlib.Decide.{dec_lt}
use native.Mathlib.Omega.{arith}

module _ {ℓ} {A : Type ℓ} where
  abbrev pub length : List A → ℕ
  length [] = 0
  length (x ∷ xs) = suc (length xs)

  abbrev pub get_elem? : List A → ℕ → Option A
  get_elem? [] i = none
  get_elem? (x ∷ xs) zero = some x
  get_elem? (x ∷ xs) (suc i) = get_elem? xs i

  -- A write out of bounds changes nothing.
  abbrev pub set : List A → ℕ → A → List A
  set [] i v = []
  set (x ∷ xs) zero v = v ∷ xs
  set (x ∷ xs) (suc i) v = x ∷ set xs i v

  abbrev pub take : ℕ → List A → List A
  take zero xs = []
  take (suc n) [] = []
  take (suc n) (x ∷ xs) = x ∷ take n xs

  abbrev pub drop : ℕ → List A → List A
  drop zero xs = xs
  drop (suc n) [] = []
  drop (suc n) (x ∷ xs) = drop n xs

  abbrev pub repeat : ℕ → A → List A
  repeat zero a = []
  repeat (suc n) a = a ∷ repeat n a

  -- A predicate of every element.
  abbrev pub All {κ} : (A → Type κ) → List A → Type κ
  All P [] = Unit
  All P (x ∷ xs) = P x × All P xs

  -- The sum of a weight over a list.
  abbrev pub total : (A → ℕ) → List A → ℕ
  total w [] = 0
  total w (x ∷ xs) = w x + total w xs

  pub length-append : (xs ys : List A) → length (xs ++ ys) ≡ length xs + length ys
  length-append [] ys = omega arith
  length-append (x ∷ xs) ys = omega (arith, length-append xs ys)

  pub length-set : (xs : List A) (i : ℕ) (v : A) → length (set xs i v) ≡ length xs
  length-set [] i v = refl
  length-set (x ∷ xs) zero v = refl
  length-set (x ∷ xs) (suc i) v = ap suc (length-set xs i v)

  -- One element goes from `a` to `b`: the total loses the weight of `a` and gains that of `b`.
  pub total-set :
      (w : A → ℕ) (xs : List A) (i : ℕ) (a b : A)
      → get_elem? xs i ≡ some a
      → total w (set xs i b) + w a ≡ total w xs + w b
  total-set w [] i a b h = ground arith
  total-set w (x ∷ xs) zero a b h = ground arith
  total-set w (x ∷ xs) (suc i) a b h = omega (arith, total-set w xs i a b h)

  -- An element's weight is part of the total.
  pub le-total :
      (w : A → ℕ) (xs : List A) (i : ℕ) (a : A) → get_elem? xs i ≡ some a → w a ≤ total w xs
  le-total w [] i a h = ground arith
  le-total w (x ∷ xs) zero a h = ground arith
  le-total w (x ∷ xs) (suc i) a h = omega (arith, le-total w xs i a h)

  -- An element after a write is the one written, or an old one at another place.
  pub get_elem?-set_cases :
      (xs : List A) (i j : ℕ) (b q : A)
      → get_elem? (set xs i b) j ≡ some q
      → (q ≡ b) ⊎ ((i ≢ j) × (get_elem? xs j ≡ some q))
  get_elem?-set_cases [] i j b q h = ground arith
  get_elem?-set_cases (x ∷ xs) zero zero b q h = ground arith
  get_elem?-set_cases (x ∷ xs) zero (suc j) b q h = inr (ground arith, h)
  get_elem?-set_cases (x ∷ xs) (suc i) zero b q h = inr (ground arith, h)
  get_elem?-set_cases (x ∷ xs) (suc i) (suc j) b q h = elim (get_elem?-set_cases xs i j b q h) [
    | inl e ↦ inl e
    | inr p ↦ inr (λ e. p.0 (omega arith), p.1)
  ]

  -- The weights of two elements are part of the total.
  pub add-le-total :
      (w : A → ℕ) (xs : List A) (i j : ℕ) (a b : A)
      → i ≢ j
      → get_elem? xs i ≡ some a
      → get_elem? xs j ≡ some b
      → w a + w b ≤ total w xs
  add-le-total w [] i j a b ne hi hj = ground arith
  add-le-total w (x ∷ xs) zero zero a b ne hi hj = absurd (ne refl)
  add-le-total w (x ∷ xs) zero (suc j) a b ne hi hj = ground (arith, le-total w xs j b hj)
  add-le-total w (x ∷ xs) (suc i) zero a b ne hi hj = ground (arith, le-total w xs i a hi)
  add-le-total w (x ∷ xs) (suc i) (suc j) a b ne hi hj =
      omega (arith, add-le-total w xs i j a b (λ e. ne (ap suc e)) hi hj)

  pub total-append : (w : A → ℕ) (xs ys : List A) → total w (xs ++ ys) ≡ total w xs + total w ys
  total-append w [] ys = omega arith
  total-append w (x ∷ xs) ys = omega (arith, total-append w xs ys)

  pub get_elem?-append_one :
      (xs : List A) (b q : A) (j : ℕ)
      → get_elem? (xs ++ b ∷ []) j ≡ some q
      → (q ≡ b) ⊎ (get_elem? xs j ≡ some q)
  get_elem?-append_one [] b q zero h = ground arith
  get_elem?-append_one [] b q (suc j) h = ground arith
  get_elem?-append_one (x ∷ xs) b q zero h = inr h
  get_elem?-append_one (x ∷ xs) b q (suc j) h = get_elem?-append_one xs b q j h

  -- Where the total is not 0, an element has a weight.
  pub pos-of-total :
      (w : A → ℕ) (xs : List A)
      → 1 ≤ total w xs
      → (i : ℕ) × (a : A) × (get_elem? xs i ≡ some a) × (1 ≤ w a)
  pos-of-total w [] h = absurd (omega arith)
  pos-of-total w (x ∷ xs) h = elim (dec_lt 0 (w x)) [
    | yes p ↦ (0, x, refl, p)
    | no p ↦ let (i, a, at, heavy) = pos-of-total w xs (omega arith) in (suc i, a, at, heavy)
  ]

  pub All-append {κ} : (P : A → Type κ) (xs ys : List A) → All P xs → All P ys → All P (xs ++ ys)
  All-append P [] ys hx hy = hy
  All-append P (x ∷ xs) ys hx hy = (hx.0, All-append P xs ys hx.1 hy)

  pub All-map {κ μ} :
      (P : A → Type κ) (Q : A → Type μ)
      → ((a : A) → P a → Q a)
      → (xs : List A) → All P xs
      → All Q xs
  All-map P Q f [] h = tt
  All-map P Q f (x ∷ xs) h = (f x h.0, All-map P Q f xs h.1)

  pub take-all : (n : ℕ) (xs : List A) → length xs ≤ n → take n xs ≡ xs
  take-all zero [] le = refl
  take-all (suc n) [] le = refl
  take-all zero (x ∷ xs) le = absurd (omega arith)
  take-all (suc n) (x ∷ xs) le = ap (λ r. x ∷ r) (take-all n xs (omega arith))

  pub length-take-le : (n : ℕ) (xs : List A) → length (take n xs) ≤ n
  length-take-le zero xs = omega arith
  length-take-le (suc n) [] = omega arith
  length-take-le (suc n) (x ∷ xs) = omega (arith, length-take-le n xs)

  pub drop-all : (n : ℕ) (xs : List A) → length xs ≤ n → drop n xs ≡ []
  drop-all zero [] le = refl
  drop-all (suc n) [] le = refl
  drop-all zero (x ∷ xs) le = absurd (omega arith)
  drop-all (suc n) (x ∷ xs) le = drop-all n xs (omega arith)

  -- The first `n` of a list that begins with `n` elements.
  pub take-append : (n : ℕ) (xs ys : List A) → length xs ≡ n → take n (xs ++ ys) ≡ xs
  take-append zero [] ys e = refl
  take-append (suc n) [] ys e = absurd (omega arith)
  take-append zero (x ∷ xs) ys e = absurd (omega arith)
  take-append (suc n) (x ∷ xs) ys e = ap (λ r. x ∷ r) (take-append n xs ys (omega arith))

  pub get_elem?-set_same :
      (xs : List A) (i : ℕ) (a b : A) → get_elem? xs i ≡ some a → get_elem? (set xs i b) i ≡ some b
  get_elem?-set_same [] i a b h = ground arith
  get_elem?-set_same (x ∷ xs) zero a b h = refl
  get_elem?-set_same (x ∷ xs) (suc i) a b h = get_elem?-set_same xs i a b h

  pub get_elem?-set_other :
      (xs : List A) (i j : ℕ) (b : A) → i ≢ j → get_elem? (set xs i b) j ≡ get_elem? xs j
  get_elem?-set_other [] i j b ne = refl
  get_elem?-set_other (x ∷ xs) zero zero b ne = absurd (ne refl)
  get_elem?-set_other (x ∷ xs) zero (suc j) b ne = refl
  get_elem?-set_other (x ∷ xs) (suc i) zero b ne = refl
  get_elem?-set_other (x ∷ xs) (suc i) (suc j) b ne =
      get_elem?-set_other xs i j b (λ e. ne (ap suc e))

  pub get_elem?-lt : (xs : List A) (i : ℕ) (a : A) → get_elem? xs i ≡ some a → i < length xs
  get_elem?-lt [] i a h = ground arith
  get_elem?-lt (x ∷ xs) zero a h = omega arith
  get_elem?-lt (x ∷ xs) (suc i) a h = omega (arith, get_elem?-lt xs i a h)

  -- Two weights that agree on the elements have the same total.
  pub total-ext :
      (v w : A → ℕ) (xs : List A)
      → ((i : ℕ) (a : A) → get_elem? xs i ≡ some a → v a ≡ w a)
      → total v xs ≡ total w xs
  total-ext v w [] h = refl
  total-ext v w (x ∷ xs) h = omega (arith, h 0 x refl, total-ext v w xs λ i a at. h (suc i) a at)

  pub total-repeat : (w : A → ℕ) (a : A) (n : ℕ) → total w (repeat n a) ≡ n * w a
  total-repeat w a zero = omega arith
  total-repeat w a (suc n) = ground (arith, total-repeat w a n)

  pub total-zero :
      (w : A → ℕ) (xs : List A)
      → ((i : ℕ) (a : A) → get_elem? xs i ≡ some a → w a ≡ 0)
      → total w xs ≡ 0
  total-zero w [] h = refl
  total-zero w (x ∷ xs) h = omega (arith, h 0 x refl, total-zero w xs λ i a at. h (suc i) a at)

  -- An element of a list with one more at its end.
  pub get_elem?-append_cases :
      (xs : List A) (b q : A) (j : ℕ)
      → get_elem? (xs ++ b ∷ []) j ≡ some q
      → ((j ≡ length xs) × (b ≡ q)) ⊎ (get_elem? xs j ≡ some q)
  get_elem?-append_cases [] b q zero h = inl (ground arith)
  get_elem?-append_cases [] b q (suc j) h = ground arith
  get_elem?-append_cases (x ∷ xs) b q zero h = inr h
  get_elem?-append_cases (x ∷ xs) b q (suc j) h = elim (get_elem?-append_cases xs b q j h) [
    | inl e ↦ inl (omega (arith, e.0), e.1)
    | inr e ↦ inr e
  ]

  pub get_elem?-append_lt :
      (xs : List A) (b : A) (j : ℕ) → j < length xs → get_elem? (xs ++ b ∷ []) j ≡ get_elem? xs j
  get_elem?-append_lt [] b j lt = absurd (omega arith)
  get_elem?-append_lt (x ∷ xs) b zero lt = refl
  get_elem?-append_lt (x ∷ xs) b (suc j) lt = get_elem?-append_lt xs b j (omega arith)

  pub get_elem?-repeat : (n i : ℕ) (a b : A) → get_elem? (repeat n a) i ≡ some b → a ≡ b
  get_elem?-repeat zero i a b h = ground arith
  get_elem?-repeat (suc n) zero a b h = some-injective a b h
  get_elem?-repeat (suc n) (suc i) a b h = get_elem?-repeat n i a b h

  pub length-repeat : (n : ℕ) (a : A) → length (repeat n a) ≡ n
  length-repeat zero a = refl
  length-repeat (suc n) a = ap suc (length-repeat n a)
