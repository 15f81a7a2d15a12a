-- ===== src/Grades/Compare/Laws.antt =====
-- The comparisons of sortAll are total orders up to equality of keys, in both directions, which
-- is what `qsort` asks of them.
use system_related_in_c.Base.{◌≡◌, ◌≢◌, ◌⊎◌, arith}
use system_related_in_c.Grades.Text.{Str, Sign, negative, zero_sign, positive, strcmp}
use system_related_in_c.Grades.Text.Order.{
  flip, AtMost, strcmp_self, eq_of_strcmp, strcmp-flip, strcmp_trans,
}
use system_related_in_c.Grades.Students.{Student}
use system_related_in_c.Grades.Compare.{◌*◌, compare_by_name, compare_by_grade}

pub record IsOrder {ℓ} {A : Type ℓ} (cmp : A → A → Sign) : Type ℓ where
  pub total : (a b : A) → AtMost (cmp a b) ⊎ AtMost (cmp b a)
  pub trans : (a b c : A) → AtMost (cmp a b) → AtMost (cmp b c) → AtMost (cmp a c)

-- `sort_order` is 1 or -1.
abbrev pub IsDirection : Sign → Type 0
IsDirection s = s ≢ zero_sign

-- Two strings in the direction of the sort.
abbrev along : Sign → Str → Str → Sign
along sort_order s t = strcmp s t * sort_order

along-flip : (d : Sign) (s t : Str) → along d t s ≡ flip (along d s t)
along-flip negative s t = ground (arith, strcmp-flip s t)
along-flip zero_sign s t = ground (arith, strcmp-flip s t)
along-flip positive s t = ground (arith, strcmp-flip s t)

along_trans :
    (d : Sign) (s t u : Str)
    → along d s t ≡ negative
    → along d t u ≡ negative
    → along d s u ≡ negative
along_trans negative s t u h k =
    ground (arith, strcmp-flip s t, strcmp-flip t u, strcmp-flip s u, strcmp_trans u t s)
along_trans zero_sign s t u h k = ground arith
along_trans positive s t u h k = ground (arith, strcmp_trans s t u)

eq_of_along : (d : Sign) (s t : Str) → IsDirection d → along d s t ≡ zero_sign → s ≡ t
eq_of_along d s t dir h = eq_of_strcmp s t (ground arith)

along-AtMost-trans :
    (d : Sign) (s t u : Str)
    → IsDirection d
    → AtMost (along d s t)
    → AtMost (along d t u)
    → AtMost (along d s u)
along-AtMost-trans d s t u dir h k =
    ground (arith, eq_of_along d s t dir, eq_of_along d t u dir, along_trans d s t u)

along_total : (d : Sign) (s t : Str) → AtMost (along d s t) ⊎ AtMost (along d t s)
along_total d s t = ground (arith, along-flip d s t)

-- In both directions, compareByGrade is total and transitive, as `qsort` asks.
pub compare_by_grade-IsOrder : (d : Sign) → IsDirection d → IsOrder (compare_by_grade d)
unfolding compare_by_grade
compare_by_grade-IsOrder d dir = record {
  total = λ a b. along_total d a.grade b.grade;
  trans = λ a b c. along-AtMost-trans d a.grade b.grade c.grade dir;
}

name_total :
    (d : Sign) (a b : Student)
    → IsDirection d
    → AtMost (compare_by_name d a b) ⊎ AtMost (compare_by_name d b a)
unfolding compare_by_name
name_total d a b dir = ground (arith, strcmp-flip a.name b.name, strcmp-flip a.surname b.surname)

name_trans :
    (d : Sign) (a b c : Student)
    → IsDirection d
    → AtMost (compare_by_name d a b)
    → AtMost (compare_by_name d b c)
    → AtMost (compare_by_name d a c)
unfolding compare_by_name
name_trans d a b c dir h k = ground (
  arith,
  eq_of_strcmp a.name b.name,
  eq_of_strcmp b.name c.name,
  strcmp_self a.name,
  along_trans d a.name b.name c.name,
  along-AtMost-trans positive a.surname b.surname c.surname,
)

-- In both directions, compareByName is total and transitive, as `qsort` asks.
pub compare_by_name-IsOrder : (d : Sign) → IsDirection d → IsOrder (compare_by_name d)
compare_by_name-IsOrder d dir = record {
  total = λ a b. name_total d a b dir;
  trans = λ a b c. name_trans d a b c dir;
}
