-- ===== src/Grades/Text/Split.antt =====
-- What `strtok` makes of a string.
use system_related_in_c.Base.{
  ℕ, suc, ◌+◌, ◌≤◌, ◌≡◌, ◌≢◌, refl, ap, List, [], ◌∷◌, ◌++◌, arith, append-nil, append_assoc,
  length, length-append, All, ==_ne, ==_refl, Bool-cases, inl, inr, ◌==◌,
}
use system_related_in_c.Grades.Text.{Str, tokens_from, tokens, emit, until_nul, cut_at}

-- A delimiter cuts the string: the tokens are those of the two parts.
pub tokens_from-cut :
    (d : ℕ) (token s t : Str)
    → tokens_from d token (s ++ d ∷ t) ≡ tokens_from d token s ++ tokens_from d [] t
unfolding tokens_from
tokens_from-cut d [] [] t = rw (==_refl d)
tokens_from-cut d (c ∷ token) [] t = rw (==_refl d)
tokens_from-cut d token (c ∷ s) t = elim (Bool-cases (c == d)) [
  | inl e ↦
      rw e (emit-append token (tokens_from d [] s) (tokens_from d [] t) (tokens_from-cut d [] s t))
  | inr e ↦ rw e (tokens_from-cut d (token ++ c ∷ []) s t)
]
  where
    emit-append :
        (token : Str) {xs : List Str} (ys zs : List Str)
        → xs ≡ ys ++ zs
        → emit token xs ≡ emit token ys ++ zs
    emit-append [] ys zs e = e
    emit-append (c ∷ token) ys zs e = ap (λ l. (c ∷ token) ∷ l) e

pub tokens-cut : (d : ℕ) (s t : Str) → tokens d (s ++ d ∷ t) ≡ tokens d s ++ tokens d t
unfolding tokens
tokens-cut d s t = tokens_from-cut d [] s t

-- A word without the delimiter is one token.
tokens_from-word :
    (d : ℕ) (token w : Str) → All (λ c. c ≢ d) w → tokens_from d token w ≡ emit (token ++ w) []
unfolding tokens_from
tokens_from-word d token [] h = rw append-nil
tokens_from-word d token (c ∷ w) h =
    rw (==_ne h.0, tokens_from-word d (token ++ c ∷ []) w h.1, append_assoc)

pub tokens-word : (d c : ℕ) (w : Str) → All (λ c. c ≢ d) (c ∷ w) → tokens d (c ∷ w) ≡ (c ∷ w) ∷ []
unfolding tokens
tokens-word d c w h = tokens_from-word d [] (c ∷ w) h

-- There are at most as many tokens as bytes.
length-tokens_from-le :
    (d : ℕ) (token s : Str) → length (tokens_from d token s) ≤ length token + length s
unfolding tokens_from
length-tokens_from-le d [] [] = omega arith
length-tokens_from-le d (c ∷ token) [] = omega arith
length-tokens_from-le d token (c ∷ s) = elim (Bool-cases (c == d)) [
  | inl e ↦ rw e (emit-le token (tokens_from d [] s) (omega (arith, length-tokens_from-le d [] s)))
  | inr e ↦
      rw e (
        omega
          (arith, length-tokens_from-le d (token ++ c ∷ []) s, length-append {0} token (c ∷ [])))
]
  where
    emit-le :
        (token : Str) (ts : List Str) {n : ℕ}
        → length ts ≤ n
        → length (emit token ts) ≤ length token + suc n
    emit-le [] ts h = omega arith
    emit-le (c ∷ token) ts h = omega arith

pub length-tokens-le : (d : ℕ) (s : Str) → length (tokens d s) ≤ length s
unfolding tokens
length-tokens-le d s = omega (arith, length-tokens_from-le d [] s)

pub until_nul_self : (s : List ℕ) → All (λ c. c ≢ 0) s → until_nul s ≡ s
until_nul_self [] h = refl
until_nul_self (c ∷ s) h = rw (==_ne h.0, until_nul_self s h.1)

pub length-until_nul-le : (s : List ℕ) → length (until_nul s) ≤ length s
length-until_nul-le [] = omega arith
length-until_nul-le (c ∷ s) = ground (arith, length-until_nul-le s)

pub length-cut_at-le : (d : ℕ) (s : Str) → length (cut_at d s) ≤ length s
length-cut_at-le d [] = omega arith
length-cut_at-le d (c ∷ s) = ground (arith, length-cut_at-le d s)
