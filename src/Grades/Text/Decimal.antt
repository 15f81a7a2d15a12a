-- ===== src/Grades/Text/Decimal.antt =====
-- `%d` of `sprintf`, and `atoi` of what it prints.
use system_related_in_c.Base.{
  ℕ, zero, suc, ◌+◌, ◌-◌, ◌*◌, ◌/◌, ◌%◌, ◌≤◌, ◌<◌, ◌≡◌, refl, sym, ap, ◌∙◌, true, false, some, [],
  ◌∷◌, arith, ltb, if◌then◌else◌, dec_lt, lt→ltb, All, ge→ltb,
}
use system_related_in_c.Base.Int.{ℤ, pos, negsuc, int, int-pos}
use system_related_in_c.Grades.Text.{Str, atoi, signed, digits_from, skip_space, is_digit}

-- The digits of `n` in front of `acc`; `n` is fuel enough.
unfoldable pub decimal_from : ℕ → ℕ → Str → Str
decimal_from zero n acc = acc
decimal_from (suc fuel) n acc =
    let more = decimal_from fuel (n / 10) ((b'0' + n % 10) ∷ acc) in
    if ltb n 10 then (b'0' + n) ∷ acc else more

unfoldable pub print_int : ℤ → Str
unfolding decimal_from
print_int (pos n) = decimal_from (suc n) n []
print_int (negsuc n) = b'-' ∷ decimal_from (suc (suc n)) (suc n) []

abbrev pub IsDigit : ℕ → Type 0
IsDigit c = (48 ≤ c) × (c ≤ 57)

digits_from-digit :
    (m d : ℕ) (acc : Str) → d ≤ 9 → digits_from m ((b'0' + d) ∷ acc) ≡ digits_from (m * 10 + d) acc
unfolding digits_from
digits_from-digit m d acc le =
    ap (λ b. elim b [ true ↦ digits_from (m * 10 + (48 + d - 48)) acc | false ↦ m ]) digit
    ∙ ap (λ k. digits_from k acc) (omega arith)
  where
    digit : is_digit (48 + d) ≡ true
    digit = ground arith

digits_from-decimal :
    (fuel n : ℕ) (acc : Str)
    → n < fuel
    → digits_from 0 (decimal_from fuel n acc) ≡ digits_from n acc
unfolding digits_from decimal_from
digits_from-decimal zero n acc lt = absurd (omega arith)
digits_from-decimal (suc fuel) n acc lt = elim (dec_lt n 10) [
  | yes small ↦
      rw (lt→ltb small)
        (digits_from-digit 0 n acc (omega arith) ∙ ap (λ k. digits_from k acc) (omega arith))
  | no large ↦ rw (ge→ltb {a = n} {b = 10} (omega arith)) (
      digits_from-decimal fuel (n / 10) ((b'0' + n % 10) ∷ acc) (omega arith)
      ∙ digits_from-digit (n / 10) (n % 10) acc (omega arith)
      ∙ ap (λ k. digits_from k acc) (omega arith))
]

decimal_from-digits :
    (fuel n : ℕ) (acc : Str)
    → n < fuel
    → All IsDigit acc
    → (c : ℕ) × (s : Str) × (decimal_from fuel n acc ≡ c ∷ s) × IsDigit c × All IsDigit s
unfolding decimal_from
decimal_from-digits zero n acc lt h = absurd (omega arith)
decimal_from-digits (suc fuel) n acc lt h = elim (dec_lt n 10) [
  | yes small ↦ (b'0' + n, acc, rw (lt→ltb small), (omega arith, omega arith), h)
  | no large ↦
      let r =
        decimal_from-digits fuel (n / 10) ((b'0' + n % 10) ∷ acc) (omega arith)
          ((omega arith, omega arith), h) in
      (r.0, r.1, rw (ge→ltb {a = n} {b = 10} (omega arith)) r.2, r.3, r.4)
]

-- A number is printed as digits.
pub print_int-digits :
    (n : ℕ) → (c : ℕ) × (s : Str) × (print_int (pos n) ≡ c ∷ s) × IsDigit c × All IsDigit s
unfolding print_int digits_from
print_int-digits n = decimal_from-digits (suc n) n [] (omega arith) tt

module _ (c : ℕ) (s : Str) (d : IsDigit c) where
  no-space : skip_space (c ∷ s) ≡ c ∷ s
  unfolding skip_space
  no-space = ground arith

  no-sign : signed (c ∷ s) ≡ pos (digits_from 0 (c ∷ s))
  unfolding signed
  no-sign = ground arith

  atoi-digits : (n : ℕ) → digits_from 0 (c ∷ s) ≡ n → n ≤ 2147483647 → atoi (c ∷ s) ≡ some (pos n)
  unfolding atoi
  atoi-digits n e le =
      ap (λ t. int (signed t)) no-space ∙ ap int (no-sign ∙ ap pos e) ∙ int-pos n le

-- What is printed of a number that an int holds is read back.
pub atoi-print_int : (n : ℕ) → n ≤ 2147483647 → atoi (print_int (pos n)) ≡ some (pos n)
unfolding print_int digits_from
atoi-print_int n le =
    let r = print_int-digits n in
    ap atoi r.2
    ∙ atoi-digits r.0 r.1 r.3 n
        (ap (digits_from 0) (sym r.2) ∙ digits_from-decimal (suc n) n [] (omega arith) ∙ refl) le
