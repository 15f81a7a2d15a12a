-- ===== src/Shop/Client/Tests.antt =====
-- The client's functions on small inputs, and the theorems there.
use system_related_in_c.Base.{
  ℕ, ◌+◌, ◌/◌, ◌≤◌, ◌<◌, ◌≡◌, ◌≢◌, refl, false, List, [], ◌∷◌, ◌++◌, arith, map, length, All, none,
}
use system_related_in_c.Base.Int.{pos, negsuc}
use system_related_in_c.Grades.Text.{Str, codes, newline, strcmp, tokens, atoi}
use system_related_in_c.Grades.Text.Decimal.{print_int, decimal_from}
use system_related_in_c.Shop.Kitchen.{find_order, find_cooked, count_delivery}
use system_related_in_c.Shop.Kitchen.Riders.{RiderPc}
use system_related_in_c.Shop.Kitchen.Manager.{fill_slot}
use system_related_in_c.Shop.Kitchen.Invariant.Receive.{IsScript}
use system_related_in_c.Shop.Kitchen.Safety.{announced}
use system_related_in_c.Shop.Kitchen.Schedule.{
  Turn, of_cook, of_rider, of_manager, of_sender, Reached, run, times,
}
use system_related_in_c.Shop.Client.{
  generate_location, returned, running, answered, send_orders, send_from, recv_fails,
}
use system_related_in_c.Shop.Client.Locations.{generate_location_in_town, generate_location_endless}
use system_related_in_c.Shop.Client.Orders.{
  order, orders_from, places, send_orders-IsScript, every_customer_served,
}
use system_related_in_c.Shop.Client.Listener.{
  listen, scan, bytes, closed, any_ends, response, served, server_closed,
}
use system_related_in_c.Shop.Client.Listener.Lines.{Plain, end_behind_a_line}

print_int_test : (print_int (pos 120) ≡ codes "120") × (print_int (negsuc 6) ≡ codes "-7")
unfolding print_int decimal_from
print_int_test = (refl, refl)

abbrev rand : ℕ → ℕ
rand k = 1804289383 + k

generate_location_in_town_example :
    (x : ℕ) × (x ≤ 10) × (generate_location 1 (pos 10) (pos (10 / 2)) rand ≡ returned (pos x))
generate_location_in_town_example = generate_location_in_town 0 10 rand (omega arith) (omega arith)

generate_location_endless_example : generate_location 100 (pos 1) (pos (1 / 2)) rand ≡ running
generate_location_endless_example = generate_location_endless 100 1 rand (omega arith)

abbrev customers : List (ℕ × ℕ)
customers = (3, 4) ∷ (0, 2) ∷ []

abbrev answers : List Str
answers = codes "OK\n" ∷ codes "OK\n" ∷ []

abbrev messages : List Str
messages = (send_orders (places customers) (map answered answers)).sent

messages_test : messages ≡ codes "0,3,4" ∷ codes "1,0,2" ∷ codes "DONE" ∷ []
unfolding send_orders send_from print_int decimal_from strcmp
messages_test = refl

-- Without an answer the client goes on to the end.
broken_off_test :
    (send_orders (places customers) (recv_fails ∷ [])).sent ≡ codes "0,3,4" ∷ codes "DONE" ∷ []
unfolding send_orders send_from print_int decimal_from
broken_off_test = refl

send_orders-IsScript_example : IsScript (order 0 0 0) (orders_from 0 customers) messages
send_orders-IsScript_example =
    send_orders-IsScript (order 0 0 0) customers answers (omega arith)
      ((omega arith, omega arith), ((omega arith, omega arith), tt)) (omega arith)

abbrev rounds : List Turn
rounds = of_manager ∷ of_cook 0 ∷ of_rider 0 ∷ of_rider 1 ∷ of_sender ∷ []

abbrev evening : Reached (order 0 0 0) (λ k. k) 1 2 messages
evening = run (order 0 0 0) (λ k. k) 1 2 messages (times 60 rounds)

evening-out : (0 < length evening.last.riders) × All (λ p. p ≡ RiderPc.out) evening.last.riders
unfolding run strcmp fill_slot tokens atoi find_order find_cooked count_delivery send_orders
    send_from print_int decimal_from
evening-out = (omega arith, (refl, (refl, tt)))

every_customer_served_example : announced (pos 1) evening.last ≡ 1
every_customer_served_example =
    every_customer_served (order 0 0 0) (λ k. k) 1 2 customers answers evening.last (omega arith)
      ((omega arith, omega arith), ((omega arith, omega arith), tt)) (omega arith) evening.reach
      evening-out.0 evening-out.1 1 (omega arith)

-- Two messages of the shop, cut at another place.
abbrev parts : List Str
parts = codes "Cook:7 ORDER ID:0 COO" ∷ codes "KED\nORDER ID:0 DELIVERED BY 3\n" ∷ []

served_test :
    listen [] (bytes (codes "ALL ORDERS SERVED\n") ∷ closed ∷ [])
    ≡ response (codes "ALL ORDERS SERVED") ∷ served ∷ []
unfolding listen scan strcmp
served_test = refl

-- The end of the visit in one part with another message is not seen.
unseen_test : listen [] (bytes (codes "OK\nALL ORDERS SERVED\n") ∷ closed ∷ []) ≡ server_closed ∷ []
unfolding listen scan strcmp
unseen_test = refl

abbrev told : Str
told = codes "ORDER ID:1 DELIVERED BY 3"

told-Plain : Plain told
unfolding strcmp
told-Plain = (refl, refl, refl)

told-no-newline : All (λ c. c ≢ newline) told
told-no-newline = ground arith

end_behind_a_line_example :
    any_ends (scan none [] (told ++ newline ∷ codes "ALL ORDERS SERVED\n")).0 ≡ false
end_behind_a_line_example =
    end_behind_a_line told (codes "ALL ORDERS SERVED\n") told-no-newline told-Plain
