-- ===== src/Grades/Text/Scan.antt =====
-- What `sscanf` makes of words with a space between them.
use system_related_in_c.Base.{
  ℕ, zero, suc, ◌≤◌, ◌≡◌, ◌≢◌, refl, false, [], ◌∷◌, ◌++◌, some, arith, length, All, All-map,
}
use system_related_in_c.Grades.Text.{Str, is_space, space, take_word, scan_word}

-- A word that `%ns` takes whole: not empty, no white space, at most `n` bytes, no NUL.
pub data IsWord (n : ℕ) : Str → Type 0 where
  word :
      (c : ℕ) (w : Str)
      → All (λ c. is_space c ≡ false) (c ∷ w)
      → length (c ∷ w) ≤ n
      → All (λ c. c ≢ 0) (c ∷ w)
      → IsWord n (c ∷ w)

take_word-append :
    (n : ℕ) (w rest : Str)
    → All (λ c. is_space c ≡ false) w
    → length w ≤ n
    → take_word n (w ++ space ∷ rest) ≡ (w, space ∷ rest)
unfolding take_word
take_word-append zero [] rest h le = refl
take_word-append (suc n) [] rest h le = refl
take_word-append zero (c ∷ w) rest h le = absurd (omega arith)
take_word-append (suc n) (c ∷ w) rest h le = rw (h.0, take_word-append n w rest h.1 (omega arith))

take_word_self :
    (n : ℕ) (w : Str) → All (λ c. is_space c ≡ false) w → length w ≤ n → take_word n w ≡ (w, [])
unfolding take_word
take_word_self zero [] h le = refl
take_word_self (suc n) [] h le = refl
take_word_self zero (c ∷ w) h le = absurd (omega arith)
take_word_self (suc n) (c ∷ w) h le = rw (h.0, take_word_self n w h.1 (omega arith))

module _ (n : ℕ) where
  pub scan_word-first :
      (w rest : Str) → IsWord n w → scan_word n (w ++ space ∷ rest) ≡ some (w, space ∷ rest)
  unfolding scan_word
  scan_word-first w rest (word c w' h le bytes) = rw (h.0, take_word-append n (c ∷ w') rest h le)

  pub scan_word-next :
      (w rest : Str) → IsWord n w → scan_word n (space ∷ w ++ space ∷ rest) ≡ some (w, space ∷ rest)
  unfolding scan_word
  scan_word-next w rest (word c w' h le bytes) = rw (h.0, take_word-append n (c ∷ w') rest h le)

  pub scan_word-last : (w : Str) → IsWord n w → scan_word n (space ∷ w) ≡ some (w, [])
  unfolding scan_word
  scan_word-last w (word c w' h le bytes) = rw (h.0, take_word_self n (c ∷ w') h le)

  pub IsWord-bytes : (w : Str) → IsWord n w → All (λ c. c ≢ 0) w
  IsWord-bytes w (word c w' h le bytes) = bytes

  pub IsWord-line : (w : Str) → IsWord n w → All (λ c. c ≢ 10) w
  IsWord-line w (word c w' h le bytes) =
      All-map (λ c. is_space c ≡ false) (λ c. c ≢ 10) (λ c e. ground arith) (c ∷ w') h

  pub IsWord-length : (w : Str) → IsWord n w → length w ≤ n
  IsWord-length w (word c w' h le bytes) = le
