-- ===== src/Pipes/Bounds.antt =====
-- Up to nine numbers, nothing that the children of signals_and_fifo/main.c compute is out of range.
use native.Mathlib.Nat.{
  pow-le-pow_right, mul-le-mul, mul_assoc, mul_comm, mul-one, pow-suc, le_trans, le_refl, le_of_eq,
}
use system_related_in_c.Base.{
  ℕ, zero, suc, ◌+◌, ◌*◌, ◌%◌, ◌^◌, ◌≤◌, ◌<◌, ◌≡◌, refl, sym, ap, ◌∙◌, some, List, [], ◌∷◌, ◌++◌,
  map, arith, length, All, total,
}
use system_related_in_c.Base.Int.{pos, int, add-pos, mul-pos, int-pos}
use system_related_in_c.Base.Options.{◌>>=◌}
use system_related_in_c.Grades.Text.{codes}
use system_related_in_c.Pipes.{
  array_of_nums, summation, multiplication, summation_child, multiplication_child, finish, with_sum,
  whole, final_result, print_sum, is_command,
}

-- The digits that `rand` gives.
abbrev pub digits : (ℕ → ℕ) → ℕ → List ℕ
digits rand zero = []
digits rand (suc n) = rand 0 % 10 ∷ digits (λ k. rand (suc k)) n

abbrev pub sum_of : List ℕ → ℕ
sum_of ds = total (λ d. d) ds

abbrev pub product_of : List ℕ → ℕ
product_of [] = 1
product_of (d ∷ ds) = d * product_of ds

array_of_nums-digits : (rand : ℕ → ℕ) (n : ℕ) → array_of_nums rand n ≡ map pos (digits rand n)
unfolding array_of_nums
array_of_nums-digits rand zero = refl
array_of_nums-digits rand (suc n) =
    ap (λ l. pos (rand 0 % 10) ∷ l) (array_of_nums-digits (λ k. rand (suc k)) n)

digits-small : (rand : ℕ → ℕ) (n : ℕ) → All (λ d. d ≤ 9) (digits rand n)
digits-small rand zero = tt
digits-small rand (suc n) = (omega arith, digits-small (λ k. rand (suc k)) n)

length-digits : (rand : ℕ → ℕ) (n : ℕ) → length (digits rand n) ≡ n
length-digits rand zero = refl
length-digits rand (suc n) = ap suc (length-digits (λ k. rand (suc k)) n)

sum-le : (ds : List ℕ) → All (λ d. d ≤ 9) ds → sum_of ds ≤ 9 * length ds
sum-le [] h = omega arith
sum-le (d ∷ ds) h = omega (arith, h.0, sum-le ds h.1)

nines-step : (d k p : ℕ) → d ≤ 9 → p ≤ 9 ^ k → d * p ≤ 9 ^ suc k
nines-step d k p le h =
    le_trans (mul-le-mul le h) (le_of_eq (mul_comm 9 (9 ^ k) ∙ sym (pow-suc 9 k)))

-- A digit less is to come.
nines-left : (m d k : ℕ) → d ≤ 9 → m * 9 ^ suc k ≤ 2147483647 → m * d * 9 ^ k ≤ 2147483647
nines-left m d k le h =
    le_trans (le_of_eq (mul_assoc m d (9 ^ k)))
      (le_trans (mul-le-mul (le_refl m) (nines-step d k (9 ^ k) le (le_refl (9 ^ k)))) h)

nines-pos : (k : ℕ) → 1 ≤ 9 ^ k
nines-pos zero = omega arith
nines-pos (suc k) = omega (arith, nines-pos k, pow-suc 9 k)

one-of : (m d k : ℕ) → d ≤ 9 → m * 9 ^ suc k ≤ 2147483647 → m * d ≤ 2147483647
one-of m d k le h =
    le_trans
      (le_trans (le_of_eq (sym (mul-one (m * d)))) (mul-le-mul (le_refl (m * d)) (nines-pos k)))
      (nines-left m d k le h)

product-le : (ds : List ℕ) → All (λ d. d ≤ 9) ds → product_of ds ≤ 9 ^ length ds
product-le [] h = omega arith
product-le (d ∷ ds) h = nines-step d (length ds) (product_of ds) h.0 (product-le ds h.1)

-- A sum that fits in an int is computed.
summation-sum :
    (s : ℕ) (ds : List ℕ)
    → s + sum_of ds ≤ 2147483647
    → summation (pos s) (map pos ds) ≡ some (pos (s + sum_of ds))
unfolding summation
summation-sum s [] h = ap (λ n. some (pos n)) (omega arith)
summation-sum s (d ∷ ds) h =
    ap (λ x. x >>= λ next. summation next (map pos ds))
      (ap int (add-pos s d) ∙ int-pos (s + d) (omega arith))
    ∙ summation-sum (s + d) ds (omega arith)
    ∙ ap (λ n. some (pos n)) (omega arith)

-- So is a product, if the nines it may be made of fit.
multiplication-product :
    (m : ℕ) (ds : List ℕ)
    → All (λ d. d ≤ 9) ds
    → m * 9 ^ length ds ≤ 2147483647
    → multiplication (pos m) (map pos ds) ≡ some (pos (m * product_of ds))
unfolding multiplication
multiplication-product m [] h le = ap (λ n. some (pos n)) (omega arith)
multiplication-product m (d ∷ ds) h le =
    ap (λ x. x >>= λ next. multiplication next (map pos ds))
      (ap int (mul-pos m d) ∙ int-pos (m * d) (one-of m d (length ds) h.0 le))
    ∙ multiplication-product (m * d) ds h.1 (nines-left m d (length ds) h.0 le)
    ∙ ap (λ n. some (pos n)) (mul_assoc m d (product_of ds))

-- The digits are small enough for both.
sum_fits : (rand : ℕ → ℕ) (n : ℕ) → n ≤ 9 → sum_of (digits rand n) ≤ 81
sum_fits rand n few =
    omega (arith, few, sum-le (digits rand n) (digits-small rand n), length-digits rand n)

length_fits : (rand : ℕ → ℕ) (n : ℕ) → n ≤ 9 → length (digits rand n) ≤ 9
length_fits rand n few = omega (arith, few, length-digits rand n)

nine_positive : 0 < 9
nine_positive = omega arith

powers_fit : (rand : ℕ → ℕ) (n : ℕ) → n ≤ 9 → 9 ^ length (digits rand n) ≤ 387420489
powers_fit rand n few = pow-le-pow_right nine_positive (length_fits rand n few)

-- A command that is the word prints the sum of the two results.
finish-pos :
    (s m : ℕ)
    → m + s ≤ 2147483647
    → finish (pos s) (some (pos m)) (some (codes "multiplication" ++ 0 ∷ []))
      ≡ final_result (pos (m + s))
unfolding finish is_command
finish-pos s m h = ap print_sum (ap int (add-pos m s) ∙ int-pos (m + s) h)

multiplication_child-pos :
    (s : ℕ) (ds : List ℕ)
    → All (λ d. d ≤ 9) ds
    → s ≤ 81
    → 9 ^ length ds ≤ 387420489
    → with_sum (map pos ds) (some (pos s)) ≡ final_result (pos (product_of ds + s))
unfolding multiplication_child
multiplication_child-pos s ds small few le =
    ap (λ r. finish (pos s) r (some (codes "multiplication" ++ 0 ∷ [])))
      (multiplication-product 1 ds small (omega (arith, le)))
    ∙ ap (λ m. finish (pos s) (some (pos m)) (some (codes "multiplication" ++ 0 ∷ [])))
        (omega arith)
    ∙ finish-pos s (product_of ds) (omega (arith, few, le, product-le ds small))

-- With at most nine numbers, whatever `rand` gives, no int that a child computes is out of range,
-- and the second child prints the product of the numbers plus their sum: the numbers are the
-- remainders by 10 of what `rand` gives, and the writes and reads come in the order that the
-- signals of `main` are meant to bring.
pub result_in_range :
    (rand : ℕ → ℕ) (n : ℕ)
    → n ≤ 9
    → whole rand n ≡ final_result (pos (product_of (digits rand n) + sum_of (digits rand n)))
unfolding whole summation_child
result_in_range rand n few =
    ap (λ nums. with_sum nums (summation (pos 0) nums)) (array_of_nums-digits rand n)
    ∙ ap (with_sum (map pos (digits rand n)))
        (summation-sum 0 (digits rand n) (omega (arith, sum_fits rand n few)))
    ∙ ap (λ s. with_sum (map pos (digits rand n)) (some (pos s))) {x = 0 + sum_of (digits rand n)}
        (omega arith)
    ∙ multiplication_child-pos (sum_of (digits rand n)) (digits rand n) (digits-small rand n)
        (sum_fits rand n few) (powers_fit rand n few)
