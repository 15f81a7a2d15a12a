-- ===== src/Base/Options.antt =====
-- Results that may be undefined, one after the other.
use system_related_in_c.Base.{Option, none, some}

infixl 5 ◌>>=◌
abbrev pub ◌>>=◌ : {A B : Type 0} → Option A → (A → Option B) → Option B
none >>= k = none
some a >>= k = k a
