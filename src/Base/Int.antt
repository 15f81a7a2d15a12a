-- ===== src/Base/Int.antt =====
-- Signed integers over the native numbers, and the ints of C: a result out of range is undefined.
use system_related_in_c.Base.{
  ℕ, suc, ◌+◌, ◌-◌, ◌*◌, ◌≤◌, ◌<◌, ◌≡◌, arith, Bool, ◌&&◌, Option, none, some, leb, ◌==◌, true, ap,
  if◌then◌else◌,
}

-- `negsuc n` is -(n + 1).
pub data ℤ : Type 0 where
  pos : ℕ → ℤ
  negsuc : ℕ → ℤ

abbrev pub pos_part : ℤ → ℕ
pos_part (pos n) = n
pos_part (negsuc n) = 0

abbrev pub neg_part : ℤ → ℕ
neg_part (pos n) = 0
neg_part (negsuc n) = suc n

-- a - b, as an integer.
abbrev pub sub_ℕ : ℕ → ℕ → ℤ
sub_ℕ a b = if leb b a then pos (a - b) else negsuc (b - a - 1)

infixl 65 ◌+ℤ◌ ◌-ℤ◌
infixl 70 ◌*ℤ◌
abbrev pub ◌+ℤ◌ : ℤ → ℤ → ℤ
a +ℤ b = sub_ℕ (pos_part a + pos_part b) (neg_part a + neg_part b)

abbrev pub ◌-ℤ◌ : ℤ → ℤ → ℤ
a -ℤ b = sub_ℕ (pos_part a + neg_part b) (neg_part a + pos_part b)

abbrev pub ◌*ℤ◌ : ℤ → ℤ → ℤ
a *ℤ b =
    sub_ℕ (pos_part a * pos_part b + neg_part a * neg_part b)
      (pos_part a * neg_part b + neg_part a * pos_part b)

abbrev pub leb_ℤ : ℤ → ℤ → Bool
leb_ℤ a b = leb (pos_part a + neg_part b) (pos_part b + neg_part a)

abbrev pub eq_ℤ : ℤ → ℤ → Bool
eq_ℤ a b = (pos_part a == pos_part b) && (neg_part a == neg_part b)

-- A value of type int, if it fits: from -2147483648 to 2147483647.
abbrev pub int : ℤ → Option ℤ
int a = if leb (pos_part a) 2147483647 && leb (neg_part a) 2147483648 then some a else none

pub mul-pos : (a b : ℕ) → pos a *ℤ pos b ≡ pos (a * b)
mul-pos a b = ground arith

pub sub-pos : (a b : ℕ) → b ≤ a → pos a -ℤ pos b ≡ pos (a - b)
sub-pos a b le = ground arith

pub add-pos : (a b : ℕ) → pos a +ℤ pos b ≡ pos (a + b)
add-pos a b = ground arith

pub int-pos : (n : ℕ) → n ≤ 2147483647 → int (pos n) ≡ some (pos n)
int-pos n le = ground arith

pub int-large : (n : ℕ) → 2147483647 < n → int (pos n) ≡ none
int-large n lt = ground arith

-- The last index of a range that may be empty, and how many indices there are up to it.
pub int-last : (n : ℕ) → n ≤ 2147483647 → int (pos n -ℤ pos 1) ≡ some (pos n -ℤ pos 1)
int-last n le = ground arith

pub count-last :
    (n start : ℕ) → start ≤ n → pos_part (pos n -ℤ pos 1 +ℤ pos 1 -ℤ pos start) ≡ n - start
count-last n start le = ground arith

pub eq_ℤ-sound : (a b : ℤ) → eq_ℤ a b ≡ true → a ≡ b
eq_ℤ-sound (pos m) (pos n) e = ap pos (ground arith)
eq_ℤ-sound (pos m) (negsuc n) e = absurd (ground arith)
eq_ℤ-sound (negsuc m) (pos n) e = absurd (ground arith)
eq_ℤ-sound (negsuc m) (negsuc n) e = ap negsuc (ground arith)

pub eq_ℤ_refl : (a : ℤ) → eq_ℤ a a ≡ true
eq_ℤ_refl a = ground arith
