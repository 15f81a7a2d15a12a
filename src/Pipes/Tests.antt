-- ===== src/Pipes/Tests.antt =====
-- Runs of signals_and_fifo/main.c.
use system_related_in_c.Base.{ℕ, ◌+◌, ◌*◌, ◌≡◌, refl, arith, some, none, [], ◌∷◌, ◌++◌}
use system_related_in_c.Base.Int.{pos}
use system_related_in_c.Grades.Text.{codes}
use system_related_in_c.Pipes.{
  array_of_nums, summation, multiplication, summation_child, multiplication_child, finish,
  is_command, whole, final_result, exit_failure, undefined,
}
use system_related_in_c.Pipes.Bounds.{digits, result_in_range, product_of, sum_of}

abbrev thrice : ℕ → ℕ
thrice k = 12 + 3 * k

-- 2, 5 and 8.
result_in_range_example :
    whole thrice 3 ≡ final_result (pos (product_of (digits thrice 3) + sum_of (digits thrice 3)))
result_in_range_example = result_in_range thrice 3 (omega arith)

run_of_three : whole thrice 3 ≡ final_result (pos 95)
unfolding whole array_of_nums summation_child summation multiplication_child multiplication finish
    is_command
run_of_three = refl

-- Without numbers the product is 1.
run_of_none : whole thrice 0 ≡ final_result (pos 1)
unfolding whole array_of_nums summation_child summation multiplication_child multiplication finish
    is_command
run_of_none = refl

-- Ten nines overflow.
ten_nines_overflow : whole (λ k. 9) 10 ≡ undefined
unfolding whole array_of_nums summation_child summation multiplication_child multiplication
ten_nines_overflow = refl

-- Where the second fifo ends early, the child prints a sum of 0.
fifo_ends_early :
    multiplication_child [] (some (codes "multiplication" ++ 0 ∷ [])) ≡ final_result (pos 1)
unfolding multiplication_child multiplication finish is_command
fifo_ends_early = refl

-- A command that is not ended reads bytes that were never set.
unended_command :
    multiplication_child (pos 15 ∷ pos 2 ∷ []) (some (codes "multiplication")) ≡ undefined
unfolding multiplication_child multiplication finish is_command
unended_command = refl

-- The word `multiplication` that comes before the end of the numbers is read as ints, the first of
-- which is the bytes of `mult`.
word_read_as_ints :
    multiplication_child (pos 15 ∷ pos 2 ∷ pos 5 ∷ pos 8 ∷ pos 1953265005 ∷ []) none ≡ undefined
unfolding multiplication_child multiplication finish
word_read_as_ints = refl

-- Another command ends the child.
other_command :
    multiplication_child (pos 15 ∷ pos 2 ∷ []) (some (codes "sum" ++ 0 ∷ [])) ≡ exit_failure
unfolding multiplication_child multiplication finish is_command
other_command = refl

failed_read : multiplication_child (pos 15 ∷ pos 2 ∷ []) none ≡ exit_failure
unfolding multiplication_child multiplication finish
failed_read = refl
