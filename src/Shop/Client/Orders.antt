-- ===== src/Shop/Client/Orders.antt =====
-- The orders of client.c as the manager of server.c reads them.
use system_related_in_c.Base.{
  ℕ, suc, ◌+◌, ◌≤◌, ◌<◌, ◌≡◌, ◌≢◌, refl, sym, ap, ◌∙◌, false, true, none, some, List, [], ◌∷◌, ◌++◌,
  arith, length, All, All-map, All-append, subst, leb, ltb, ◌&&◌, if◌then◌else◌, map,
}
use system_related_in_c.Base.Int.{ℤ, pos}
use system_related_in_c.Grades.Text.{Str, codes, same, tokens, until_nul, strcmp}
use system_related_in_c.Grades.Text.Split.{tokens-cut, tokens-word, until_nul_self}
use system_related_in_c.Grades.Text.Decimal.{print_int, print_int-digits, atoi-print_int, IsDigit}
use system_related_in_c.Shop.Kitchen.{Order, Status}
use system_related_in_c.Shop.Kitchen.Manager.{fill_slot, three_ints}
use system_related_in_c.Shop.Kitchen.Riders.{RiderPc}
use system_related_in_c.Shop.Kitchen.System.{System, Reach}
use system_related_in_c.Shop.Kitchen.Invariant.Receive.{IsScript, done, more}
use system_related_in_c.Shop.Kitchen.Safety.{announced, asked, all_orders_served}
use system_related_in_c.Shop.Client.{order_text, answered, send_from, send_orders, Log, respond}

-- The order that the manager is to make of a text.
abbrev pub order : ℕ → ℕ → ℕ → Order
order i x y = record { order_id = pos i; x = pos x; y = pos y; status = Status.waiting }

tokens-print_int : (n : ℕ) → tokens b',' (print_int (pos n)) ≡ print_int (pos n) ∷ []
tokens-print_int n =
    let r = print_int-digits n in
    ap (tokens b',') r.2
    ∙ tokens-word b',' r.0 r.1 (
      λ e. absurd (omega (arith, r.3, e)),
      All-map IsDigit (λ c. c ≢ b',') (λ c d e. absurd (omega (arith, d, e))) r.1 r.4,
    )
    ∙ ap (λ t. t ∷ []) (sym r.2)

tokens-order_text :
    (i x y : ℕ)
    → tokens b',' (order_text (pos i) (pos x) (pos y))
      ≡ print_int (pos i) ∷ print_int (pos x) ∷ print_int (pos y) ∷ []
tokens-order_text i x y =
    tokens-cut b',' (print_int (pos i) ++ b',' ∷ print_int (pos x)) (print_int (pos y))
    ∙ ap (λ l. l ++ tokens b',' (print_int (pos y)))
        (tokens-cut b',' (print_int (pos i)) (print_int (pos x)))
    ∙ rw (tokens-print_int i, tokens-print_int x, tokens-print_int y)

module _ (i x y : ℕ) (hi : i ≤ 2147483647) (hx : x ≤ 2147483647) (hy : y ≤ 2147483647) where
  ints-read :
      three_ints (print_int (pos i)) (print_int (pos x)) (print_int (pos y))
      ≡ some (pos i, pos x, pos y)
  ints-read = rw (atoi-print_int i hi, atoi-print_int x hx, atoi-print_int y hy)

  -- The manager makes of the text of an order that order, and counts it once.
  pub fill_slot-order_text :
      (blank : Order) (n : ℕ)
      → fill_slot (tokens b',' (order_text (pos i) (pos x) (pos y))) blank n
        ≡ some (order i x y, suc n)
  unfolding fill_slot
  fill_slot-order_text blank n =
      ap (λ ts. fill_slot ts blank n) (tokens-order_text i x y)
      ∙ ap
          (λ r. elim r [
            | none ↦ none
            | some (a, b, c) ↦
                some (record { order_id = a; x = b; y = c; status = Status.waiting }, suc n)
          ])
          ints-read

IsDigit-nonzero : (c : ℕ) → IsDigit c → c ≢ 0
IsDigit-nonzero c d e = absurd (omega (arith, d, e))

print_int-nonzero : (n : ℕ) → All (λ c. c ≢ 0) (print_int (pos n))
print_int-nonzero n =
    let r = print_int-digits n in
    rw r.2 (IsDigit-nonzero r.0 r.3, All-map IsDigit (λ c. c ≢ 0) IsDigit-nonzero r.1 r.4)

comma-nonzero : (c : ℕ) → c ≡ b',' → c ≢ 0
comma-nonzero c is e = absurd (omega (arith, is, e))

order_text-nonzero : (i x y : ℕ) → All (λ c. c ≢ 0) (order_text (pos i) (pos x) (pos y))
order_text-nonzero i x y =
    All-append (λ c. c ≢ 0) (print_int (pos i) ++ b',' ∷ print_int (pos x))
      (b',' ∷ print_int (pos y))
      (All-append (λ c. c ≢ 0) (print_int (pos i)) (b',' ∷ print_int (pos x)) (print_int-nonzero i)
        (comma-nonzero b',' refl, print_int-nonzero x))
      (comma-nonzero b',' refl, print_int-nonzero y)

order_text-whole :
    (i x y : ℕ)
    → until_nul (order_text (pos i) (pos x) (pos y)) ≡ order_text (pos i) (pos x) (pos y)
order_text-whole i x y =
    until_nul_self (order_text (pos i) (pos x) (pos y)) (order_text-nonzero i x y)

digit-ne-done : (c : ℕ) (s : Str) → IsDigit c → same (c ∷ s) (codes "DONE") ≡ false
unfolding strcmp
digit-ne-done c s d = ground arith

order_text-ne-done :
    (i x y : ℕ) → same (until_nul (order_text (pos i) (pos x) (pos y))) (codes "DONE") ≡ false
order_text-ne-done i x y =
    let r = print_int-digits i in
    ap (λ t. same t (codes "DONE")) (order_text-whole i x y)
    ∙ ap (λ t. same (t ++ b',' ∷ print_int (pos x) ++ b',' ∷ print_int (pos y)) (codes "DONE")) r.2
    ∙ digit-ne-done r.0 (r.1 ++ b',' ∷ print_int (pos x) ++ b',' ∷ print_int (pos y)) r.3

-- The orders of customers at these places, from the number `i` on.
abbrev pub orders_from : ℕ → List (ℕ × ℕ) → List Order
orders_from i [] = []
orders_from i ((x, y) ∷ ls) = order i x y ∷ orders_from (suc i) ls

abbrev pub places : List (ℕ × ℕ) → List (ℤ × ℤ)
places ls = map (λ l. (pos l.0, pos l.1)) ls

-- An int holds the numbers of this place.
abbrev pub Fits : ℕ × ℕ → Type 0
Fits l = (l.0 ≤ 2147483647) × (l.1 ≤ 2147483647)

respond-sent : (r : Str) (l : Log) → (respond r l).sent ≡ l.sent
respond-sent r l = ground arith

done-same : same (until_nul (codes "DONE")) (codes "DONE") ≡ true
unfolding strcmp
done-same = refl

send_from-IsScript :
    (blank : Order) (i : ℕ) (ls : List (ℕ × ℕ)) (rs : List Str)
    → i + length ls ≤ 2147483648
    → All Fits ls
    → length ls ≤ length rs
    → IsScript blank (orders_from i ls) (send_from i (places ls) (map answered rs)).sent
unfolding send_from
send_from-IsScript blank i [] rs small fits enough = done (codes "DONE") [] done-same
send_from-IsScript blank i ((x, y) ∷ ls) [] small fits enough = absurd (omega arith)
send_from-IsScript blank i ((x, y) ∷ ls) (r ∷ rs) small fits enough =
    more (order i x y) (orders_from (suc i) ls) (order_text (pos i) (pos x) (pos y)) _
      (order_text-ne-done i x y)
      (λ n.
        ap (λ t. fill_slot (tokens b',' t) blank n) (order_text-whole i x y)
        ∙ fill_slot-order_text i x y (omega arith) fits.0.0 fits.0.1 blank n)
      refl
      (subst (IsScript blank (orders_from (suc i) ls))
        (sym (respond-sent r (send_from (suc i) (places ls) (map answered rs))))
        (send_from-IsScript blank (suc i) ls rs (omega arith) fits.1 (omega arith)))

-- If numbers and places fit in an int and each order gets an answer, the manager makes of the
-- texts that the client sends the client's orders, with the numbers from 0 on, and then DONE.
pub send_orders-IsScript :
    (blank : Order) (ls : List (ℕ × ℕ)) (rs : List Str)
    → length ls ≤ 2147483648
    → All Fits ls
    → length ls ≤ length rs
    → IsScript blank (orders_from 0 ls) (send_orders (places ls) (map answered rs)).sent
unfolding send_orders
send_orders-IsScript blank ls rs small fits enough =
    send_from-IsScript blank 0 ls rs (omega arith) fits enough

-- The number `i` is asked for once, if it is one of the first.
asked-orders_from :
    (d i : ℕ) (ls : List (ℕ × ℕ))
    → asked (pos d) (orders_from i ls) ≡ (if leb i d && ltb d (i + length ls) then 1 else 0)
asked-orders_from d i [] = ground arith
asked-orders_from d i ((x, y) ∷ ls) = ground (arith, asked-orders_from d (suc i) ls)

-- If numbers and places fit in an int and each order gets an answer: when the manager reads what
-- the client sends, text by text, there are delivery threads and all have ended, then each
-- customer's order has been announced as delivered exactly once, whatever the order of the
-- threads' steps.
pub every_customer_served :
    (blank : Order) (ids : ℕ → ℕ) (n m : ℕ) (ls : List (ℕ × ℕ)) (rs : List Str) (s : System)
    → length ls ≤ 2147483648
    → All Fits ls
    → length ls ≤ length rs
    → Reach blank ids n m (send_orders (places ls) (map answered rs)).sent s
    → 0 < length s.riders
    → All (λ p. p ≡ RiderPc.out) s.riders
    → (d : ℕ) → d < length ls
    → announced (pos d) s ≡ 1
every_customer_served blank ids n m ls rs s small fits enough r some_riders outs d lt =
    all_orders_served (send_orders-IsScript blank ls rs small fits enough) r some_riders outs
      (pos d)
    ∙ asked-orders_from d 0 ls
    ∙ ground arith
