-- ===== src/Grades/Compare.antt =====
-- The comparisons that sortAll hands to `qsort`.
pub mod Laws
use system_related_in_c.Base.{if◌then◌else◌}
use system_related_in_c.Grades.Text.{
  Str, codes, Sign, negative, zero_sign, positive, strcmp, is_zero, same,
}
use system_related_in_c.Grades.Students.{Student}

-- The sign of a product.
infixl 70 ◌*◌
abbrev pub ◌*◌ : Sign → Sign → Sign
zero_sign * t = zero_sign
positive * t = t
negative * negative = positive
negative * zero_sign = zero_sign
negative * positive = negative

unfoldable pub compare_by_name : Sign → Student → Student → Sign
compare_by_name sort_order a b =
    let last_name_comp = strcmp a.name b.name in
    if is_zero last_name_comp then strcmp a.surname b.surname else last_name_comp * sort_order

unfoldable pub compare_by_grade : Sign → Student → Student → Sign
compare_by_grade sort_order a b = strcmp a.grade b.grade * sort_order

-- `sort_order` as the option sets it. A child starts with the parent's value, which no command
-- changes from 1: each sets it in its own process.
abbrev pub sort_order_of : Str → Sign
sort_order_of order =
    if same order (codes "-a")
    then positive
    else if same order (codes "-d")
    then negative
    else positive
