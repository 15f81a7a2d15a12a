-- ===== src/Grades/Text/Order.antt =====
-- `strcmp` is a total order on strings, and tells them apart.
use system_related_in_c.Base.{◌≡◌, ◌≢◌, refl, true, false, [], ◌∷◌, arith}
use system_related_in_c.Grades.Text.{Str, Sign, negative, zero_sign, positive, strcmp, same}

abbrev pub flip : Sign → Sign
flip negative = positive
flip zero_sign = zero_sign
flip positive = negative

-- At most.
abbrev pub AtMost : Sign → Type 0
AtMost s = s ≢ positive

pub strcmp_self : (s : Str) → strcmp s s ≡ zero_sign
unfolding strcmp
strcmp_self [] = refl
strcmp_self (c ∷ s) = ground (arith, strcmp_self s)

pub eq_of_strcmp : (s t : Str) → strcmp s t ≡ zero_sign → s ≡ t
unfolding strcmp
eq_of_strcmp [] [] h = refl
eq_of_strcmp [] (d ∷ t) h = cc
eq_of_strcmp (c ∷ s) [] h = cc
eq_of_strcmp (c ∷ s) (d ∷ t) h = ground (arith, eq_of_strcmp s t)

pub strcmp-flip : (s t : Str) → strcmp t s ≡ flip (strcmp s t)
unfolding strcmp
strcmp-flip [] [] = refl
strcmp-flip [] (d ∷ t) = refl
strcmp-flip (c ∷ s) [] = refl
strcmp-flip (c ∷ s) (d ∷ t) = ground (arith, strcmp-flip s t)

pub strcmp_trans :
    (s t u : Str) → strcmp s t ≡ negative → strcmp t u ≡ negative → strcmp s u ≡ negative
unfolding strcmp
strcmp_trans [] t [] h k = ground (arith, strcmp-flip t [])
strcmp_trans [] t (e ∷ u) h k = refl
strcmp_trans (c ∷ s) [] u h k = cc
strcmp_trans (c ∷ s) (d ∷ t) [] h k = cc
strcmp_trans (c ∷ s) (d ∷ t) (e ∷ u) h k = ground (arith, strcmp_trans s t u)

pub same_self : (s : Str) → same s s ≡ true
same_self s = ground (arith, strcmp_self s)

pub eq_of_same : (s t : Str) → same s t ≡ true → s ≡ t
eq_of_same s t h = ground (arith, eq_of_strcmp s t)

pub same_ne : {s t : Str} → s ≢ t → same s t ≡ false
same_ne {s} {t} ne = ground (arith, eq_of_strcmp s t)
