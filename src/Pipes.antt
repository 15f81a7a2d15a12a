-- ===== src/Pipes.antt =====
-- signals_and_fifo/main.c: what the two children compute from the numbers that their parent writes.
-- What a fifo brings is the list of the ints that are read before its end.
pub mod Bounds
mod Tests
use system_related_in_c.Base.{
  ℕ, zero, suc, ◌+◌, ◌%◌, Bool, true, false, Option, none, some, List, [], ◌∷◌, ◌++◌, map,
  if◌then◌else◌, ◌==◌,
}
use system_related_in_c.Base.Options.{◌>>=◌}
use system_related_in_c.Base.Int.{ℤ, pos, ◌+ℤ◌, ◌*ℤ◌, int}
use system_related_in_c.Grades.Text.{Str, codes}

-- `array_of_nums`, the `k`-th call of `rand` giving `rand k`.
unfoldable pub array_of_nums : (ℕ → ℕ) → ℕ → List ℤ
array_of_nums rand zero = []
array_of_nums rand (suc n) = pos (rand 0 % 10) ∷ array_of_nums (λ k. rand (suc k)) n

-- The loop of `summation_child`; a sum that does not fit in an int is undefined.
unfoldable pub summation : ℤ → List ℤ → Option ℤ
summation sum [] = some sum
summation sum (num ∷ nums) = do next ← int (sum +ℤ num); summation next nums

-- The loop of `multiplication_child`.
unfoldable pub multiplication : ℤ → List ℤ → Option ℤ
multiplication mul [] = some mul
multiplication mul (num ∷ nums) = do next ← int (mul *ℤ num); multiplication next nums

-- How a child ends.
pub data ChildEnd : Type 0 where
  final_result : ℤ → ChildEnd
  exit_failure : ChildEnd
  undefined : ChildEnd

-- What `summation_child` writes to the second fifo.
unfoldable pub summation_child : List ℤ → Option ℤ
unfolding summation
summation_child nums = summation (pos 0) nums

abbrev pub print_sum : Option ℤ → ChildEnd
print_sum none = undefined
print_sum (some n) = final_result n

-- `strcmp` of the bytes read into `command` with a word: what is behind them was never set.
unfoldable pub is_command : Str → Str → Option Bool
is_command [] word = none
is_command (c ∷ cs) [] = some (c == 0)
is_command (c ∷ cs) (w ∷ ws) = let rest = is_command cs ws in if c == w then rest else some false

abbrev pub obey : ℤ → ℤ → Option Bool → ChildEnd
obey sum mul none = undefined
obey sum mul (some b) = if b then print_sum (int (mul +ℤ sum)) else exit_failure

-- Behind the loop: the command is read, and the result is printed.
unfoldable pub finish : ℤ → Option ℤ → Option Str → ChildEnd
unfolding is_command
finish sum none command = undefined
finish sum (some mul) none = exit_failure
finish sum (some mul) (some command) = obey sum mul (is_command command (codes "multiplication"))

-- `multiplication_child`: the first int is the sum, which stays 0 where there is none; `command` is
-- `none` where its `read` fails.
unfoldable pub multiplication_child : List ℤ → Option Str → ChildEnd
unfolding multiplication finish
multiplication_child [] command = finish (pos 0) (multiplication (pos 1) []) command
multiplication_child (sum ∷ nums) command = finish sum (multiplication (pos 1) nums) command

abbrev pub with_sum : List ℤ → Option ℤ → ChildEnd
with_sum nums none = undefined
with_sum nums (some sum) =
    multiplication_child (sum ∷ nums) (some (codes "multiplication" ++ 0 ∷ []))

-- The order that the signals of `main` are meant to bring: the first child has the numbers and
-- writes their sum to the second fifo, the parent writes the numbers behind it and closes it, and
-- then opens it again for the command.
unfoldable pub whole : (ℕ → ℕ) → ℕ → ChildEnd
unfolding array_of_nums summation_child multiplication_child
whole rand main_parameter =
    let array = array_of_nums rand main_parameter in with_sum array (summation_child array)
