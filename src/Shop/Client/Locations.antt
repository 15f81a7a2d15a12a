-- ===== src/Shop/Client/Locations.antt =====
-- Where client.c puts its customers.
use system_related_in_c.Base.{
  ℕ, zero, suc, ◌+◌, ◌/◌, ◌%◌, ◌≤◌, ◌<◌, ◌≡◌, refl, ap, ◌∙◌, some, arith,
}
use system_related_in_c.Base.Int.{ℤ, pos}
use system_related_in_c.Shop.Client.{
  get_random_number, generate_location, Outcome, returned, running, test_shop,
}

-- A random number between 0 and `p`.
get_random_number-pos :
    (p r : ℕ) → p < 2147483647 → get_random_number (pos 0) (pos p) r ≡ some (pos (r % (p + 1)))
unfolding get_random_number
get_random_number-pos p r small = ground arith

module _ (x : ℤ) (again : Outcome ℤ) where
  far-from-0 : (shop : ℕ) → 1 ≤ shop → test_shop (pos shop) (some x) again ≡ returned x
  far-from-0 shop le = ground arith

  at-0 : (shop : ℕ) → shop ≡ 0 → test_shop (pos shop) (some x) again ≡ again
  at-0 shop e = ground arith

-- In a town of width 2 or more, below the largest int, the loop ends in its first round, with a
-- place in the town.
pub generate_location_in_town :
    (fuel p : ℕ) (rand : ℕ → ℕ)
    → 2 ≤ p
    → p < 2147483647
    → (x : ℕ) × (x ≤ p)
      × (generate_location (suc fuel) (pos p) (pos (p / 2)) rand ≡ returned (pos x))
unfolding generate_location
generate_location_in_town fuel p rand large small = (
  rand 0 % (p + 1),
  omega arith,
  ap
        (λ g.
          test_shop (pos (p / 2)) g
            (generate_location fuel (pos p) (pos (p / 2)) λ k. rand (suc k)))
        (get_random_number-pos p (rand 0) small)
      ∙ far-from-0 _ _ (p / 2) (omega arith),
)

-- In a town of width 0 or 1, the loop has not ended after any number of rounds.
pub generate_location_endless :
    (fuel p : ℕ) (rand : ℕ → ℕ)
    → p < 2
    → generate_location fuel (pos p) (pos (p / 2)) rand ≡ running
unfolding generate_location
generate_location_endless zero p rand small = refl
generate_location_endless (suc fuel) p rand small =
    ap
      (λ g.
        test_shop (pos (p / 2)) g (generate_location fuel (pos p) (pos (p / 2)) λ k. rand (suc k)))
      (get_random_number-pos p (rand 0) (omega arith))
    ∙ at-0 _ _ (p / 2) (omega arith)
    ∙ generate_location_endless fuel p (λ k. rand (suc k)) small
