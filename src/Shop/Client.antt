-- ===== src/Shop/Client.antt =====
-- socket_threads_semaphores_mutex/client.c: where the customers are, the orders that are sent, and
-- the thread that listens to the shop.
pub mod Orders
pub mod Locations
pub mod Listener
mod Tests
use system_related_in_c.Base.{
  ℕ, zero, suc, ◌+◌, ◌%◌, Bool, true, false, not, Option, none, some, List, [], ◌∷◌, ◌++◌, ◌==◌,
  if◌then◌else◌,
}
use system_related_in_c.Base.Options.{◌>>=◌}
use system_related_in_c.Base.Int.{ℤ, pos, negsuc, pos_part, neg_part, ◌+ℤ◌, ◌-ℤ◌, int}
use system_related_in_c.Grades.Text.{Str, codes, same, until_nul}
use system_related_in_c.Grades.Text.Decimal.{print_int}

-- `r % d` for the nonnegative `r` of `rand`, which a divisor of 0 leaves undefined.
abbrev pub rem : ℕ → ℤ → Option ℤ
rem r d = if pos_part d + neg_part d == 0 then none else some (pos (r % (pos_part d + neg_part d)))

-- `getRandomNumber`, `r` being what `rand` gives. It is undefined where an int overflows.
unfoldable pub get_random_number : ℤ → ℤ → ℕ → Option ℤ
get_random_number low high r = do
  width ← int (high -ℤ low)
  divisor ← int (width +ℤ pos 1)
  k ← rem r divisor
  int (low +ℤ k)

-- What a loop comes to: a value, an undefined operation, or no end yet.
pub data Outcome (A : Type 0) : Type 0 where
  returned : A → Outcome A
  undefined : Outcome A
  running : Outcome A

abbrev pub is_zero_int : ℤ → Bool
is_zero_int n = pos_part n + neg_part n == 0

abbrev pub test_shop : ℤ → Option ℤ → Outcome ℤ → Outcome ℤ
test_shop shop none again = undefined
test_shop shop (some x) again = if is_zero_int shop then again else returned x

-- `generate_location_x`, and `generate_location_y`, which is the same: the loop goes on while the
-- shop is at 0, `fuel` bounds its rounds, and `rand` gives one number each.
unfoldable pub generate_location : ℕ → ℤ → ℤ → (ℕ → ℕ) → Outcome ℤ
unfolding get_random_number
generate_location zero p shop rand = running
generate_location (suc fuel) p shop rand =
    let again = generate_location fuel p shop (λ k. rand (suc k)) in
    test_shop shop (get_random_number (pos 0) p (rand 0)) again

-- `"%d,%d,%d"`
abbrev pub order_text : ℤ → ℤ → ℤ → Str
order_text i x y = print_int i ++ b',' ∷ print_int x ++ b',' ∷ print_int y

-- What happens to one order that is sent.
pub data Answer : Type 0 where
  send_fails : Answer
  recv_fails : Answer
  answered : Str → Answer

pub record Log : Type 0 where
  pub sent : List Str  -- on the socket
  pub logged : List Str  -- in client.log
  pub printed : List Str

abbrev add_sent : Str → Log → Log
add_sent t l = record l { sent = t ∷ l.sent }

abbrev add_logged : Str → Log → Log
add_logged t l = record l { logged = t ∷ l.logged }

-- What is printed of the answer `response`.
abbrev pub respond : Str → Log → Log
respond response l = if same (until_nul response) (codes "OK\n") then l else record l {
  printed = (codes "Response: " ++ (until_nul response ++ codes "\n")) ∷ l.printed;
}

-- The end of `send_orders`, whether the loop is through or broken off.
abbrev pub say_done : Log
say_done = record { sent = codes "DONE" ∷ []; logged = []; printed = [] }

-- The loop of `send_orders` from the order `i` on, with the locations of the customers.
unfoldable pub send_from : ℕ → List (ℤ × ℤ) → List Answer → Log
send_from i [] answers = say_done
send_from i ((x, y) ∷ rest) [] = say_done
send_from i ((x, y) ∷ rest) (send_fails ∷ answers) = say_done
send_from i ((x, y) ∷ rest) (recv_fails ∷ answers) =
    let text = order_text (pos i) x y in add_sent text (add_logged text say_done)
send_from i ((x, y) ∷ rest) (answered response ∷ answers) =
    let text = order_text (pos i) x y in
    add_sent text (add_logged text (respond response (send_from (suc i) rest answers)))

-- `send_orders`: the customers are those whose locations are given.
unfoldable pub send_orders : List (ℤ × ℤ) → List Answer → Log
unfolding send_from
send_orders locations answers = send_from 0 locations answers
