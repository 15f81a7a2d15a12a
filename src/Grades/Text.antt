-- ===== src/Grades/Text.antt =====
-- The functions of the C library on strings that fifo/main.c calls. A string is the list of its
-- bytes, without the NUL at its end.
pub mod Order
pub mod Split
pub mod Scan
pub mod Decimal
use Prim.Native.Char.{code}
use Prim.Native.String.{String}
use system_related_in_c.Base.{
  ℕ, zero, suc, ◌+◌, ◌-◌, ◌*◌, Bool, true, false, ◌&&◌, ◌||◌, not, Option, none, some, List, [],
  ◌∷◌, ◌++◌, ltb, leb, ◌==◌, if◌then◌else◌,
}
use system_related_in_c.Base.Int.{ℤ, pos, sub_ℕ, int}

abbrev pub Str : Type 0
Str = List ℕ

-- The bytes of a literal.
abbrev pub codes : String → Str
codes String.[] = []
codes (String.◌∷◌ c s) = code c ∷ codes s

abbrev pub newline : ℕ
newline = 10

abbrev pub space : ℕ
space = 32

-- A buffer read as a string: up to its first NUL.
abbrev pub until_nul : List ℕ → Str
until_nul [] = []
until_nul (c ∷ s) = if c == 0 then [] else c ∷ until_nul s

-- `s[strcspn(s, "c")] = '\0'`
abbrev pub cut_at : ℕ → Str → Str
cut_at d [] = []
cut_at d (c ∷ s) = if c == d then [] else c ∷ cut_at d s

-- The sign of an int, which is all that the callers of a comparison look at.
pub data Sign : Type 0 where
  negative : Sign
  zero_sign : Sign
  positive : Sign

unfoldable pub strcmp : Str → Str → Sign
strcmp [] [] = zero_sign
strcmp [] (d ∷ t) = negative
strcmp (c ∷ s) [] = positive
strcmp (c ∷ s) (d ∷ t) =
    let rest = strcmp s t in if ltb c d then negative else if ltb d c then positive else rest

abbrev pub is_zero : Sign → Bool
is_zero zero_sign = true
is_zero _ = false

-- `strcmp(s, t) == 0`
abbrev pub same : Str → Str → Bool
same s t = is_zero (strcmp s t)

abbrev pub emit : Str → List Str → List Str
emit [] ts = ts
emit (c ∷ s) ts = (c ∷ s) ∷ ts

-- The tokens that calls of `strtok` with one delimiter give, `token` being read.
unfoldable pub tokens_from : ℕ → Str → Str → List Str
tokens_from d token [] = emit token []
tokens_from d token (c ∷ s) =
    let next = tokens_from d [] s in
    let longer = tokens_from d (token ++ c ∷ []) s in if c == d then emit token next else longer

unfoldable pub tokens : ℕ → Str → List Str
unfolding tokens_from
tokens d s = tokens_from d [] s

-- `isspace`
abbrev pub is_space : ℕ → Bool
is_space c = (c == 32) || (leb 9 c && leb c 13)

unfoldable pub skip_space : Str → Str
skip_space [] = []
skip_space (c ∷ s) = if is_space c then skip_space s else c ∷ s

-- What `%ns` takes once white space is skipped, and what it leaves.
unfoldable pub take_word : ℕ → Str → Str × Str
take_word zero s = ([], s)
take_word (suc n) [] = ([], [])
take_word (suc n) (c ∷ s) =
    let (w, rest) = take_word n s in if is_space c then ([], c ∷ s) else (c ∷ w, rest)

-- One `%ns` of `sscanf`; it fails where there is no byte for it.
abbrev pub nonempty : Str × Str → Option (Str × Str)
nonempty ([], rest) = none
nonempty (c ∷ w, rest) = some (c ∷ w, rest)

unfoldable pub scan_word : ℕ → Str → Option (Str × Str)
unfolding skip_space take_word
scan_word n s = nonempty (take_word n (skip_space s))

abbrev pub is_digit : ℕ → Bool
is_digit c = leb b'0' c && leb c b'9'

digits_from : ℕ → Str → ℕ
digits_from n [] = n
digits_from n (c ∷ s) = elim (is_digit c) [ true ↦ digits_from (n * 10 + (c - b'0')) s | false ↦ n ]

signed : Str → ℤ
unfolding digits_from
signed [] = pos 0
signed (c ∷ s) =
    if c == b'-'
    then sub_ℕ 0 (digits_from 0 s)
    else if c == b'+'
    then pos (digits_from 0 s)
    else pos (digits_from 0 (c ∷ s))

-- `atoi`; `none` where the number does not fit, which leaves the result undefined.
unfoldable pub atoi : Str → Option ℤ
unfolding signed skip_space
atoi s = int (signed (skip_space s))
