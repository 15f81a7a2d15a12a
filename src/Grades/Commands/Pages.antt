-- ===== src/Grades/Commands/Pages.antt =====
-- listSome prints a page of the students.
use system_related_in_c.Base.{
  ℕ, zero, suc, ◌+◌, ◌-◌, ◌*◌, ◌≤◌, ◌<◌, ◌≡◌, refl, ◌∙◌, ap, subst, none, some, List, [], ◌∷◌, ◌++◌,
  arith, length, append-nil, append_assoc, ==_ne, take, drop, get_elem?, dec_lt,
}
use system_related_in_c.Base.Int.{
  pos, pos_part, int, ◌+ℤ◌, ◌-ℤ◌, ◌*ℤ◌, mul-pos, sub-pos, add-pos, int-pos, int-last, count-last,
}
use system_related_in_c.Grades.Text.{Str, codes}
use system_related_in_c.Grades.World.{Env, World, Outcome, ok, exited, fault, content}
use system_related_in_c.Grades.World.Files.{
  touch, logged, out-logged, out-touch, open_file-ok, log_message-ok, fork-ok,
}
use system_related_in_c.Grades.Students.{Student}
use system_related_in_c.Grades.Students.Load.{students_of, load_small}
use system_related_in_c.Grades.Commands.{grade_line, grade_lines, show_page, list_some}
use system_related_in_c.Grades.Commands.Records.{Allows}

module _ {A : Type 0} where
  drop-get_elem? :
      (l : List A) (n : ℕ)
      → n < length l
      → (a : A) × (get_elem? l n ≡ some a) × (drop n l ≡ a ∷ drop (n + 1) l)
  drop-get_elem? [] n lt = absurd (omega arith)
  drop-get_elem? (a ∷ l) zero lt = (a, refl, refl)
  drop-get_elem? (x ∷ l) (suc n) lt =
      let (a, at, split) = drop-get_elem? l n (omega arith) in
      (a, at, subst (λ m. drop n l ≡ a ∷ drop m (x ∷ l)) next split)
    where
      next : suc (n + 1) ≡ suc n + 1
      next = omega arith

  get_elem?-out : (l : List A) (n : ℕ) → length l ≤ n → get_elem? l n ≡ none
  get_elem?-out [] n le = refl
  get_elem?-out (a ∷ l) zero le = absurd (omega arith)
  get_elem?-out (a ∷ l) (suc n) le = get_elem?-out l n (omega arith)

module _ (env : Env) (students : List Student) where
  show_page-in :
      (k n : ℕ) (w : World)
      → n + k ≤ length students
      → (w' : World) × (show_page env k (pos n) students w ≡ ok tt w')
        × (w'.out ≡ w.out ++ grade_lines (take k (drop n students)))
  unfolding show_page
  show_page-in zero n w fits = (w, refl, rw append-nil)
  show_page-in (suc k) n w fits =
      let (s, at, split) = drop-get_elem? students n (omega arith) in
      let shown : World = record w { out = w.out ++ grade_line s.name s.surname s.grade } in
      let (w', rest, said) = show_page-in k (n + 1) shown (omega arith) in
      (w', rw (at, rest), said ∙ rw (split, append_assoc))

  show_page-out :
      (k n : ℕ) (w : World)
      → length students < n + k
      → 1 ≤ k
      → show_page env k (pos n) students w ≡ fault
  unfolding show_page
  show_page-out zero n w past some_rounds = absurd (omega arith)
  show_page-out (suc k) n w past some_rounds = elim (dec_lt n (length students)) [
    | yes lt ↦
        let (s, at, _) = drop-get_elem? students n lt in
        rw (at, show_page-out k (n + 1) _ (omega arith) (omega arith))
    | no ge ↦ rw (get_elem?-out students n (omega arith))
  ]

-- How the child ends once the page is printed.
abbrev listed : Outcome (Unit {0}) → Outcome (Unit {0})
listed (ok a w') = ok tt (logged (codes "Students are listed by page number") w')
listed (exited s w') = ok tt w'
listed fault = fault

-- The arithmetic of listSome, where the sum stays an int.
module _ (page entries : ℕ) (from_one : 1 ≤ page) (sum_int : 5 * page + entries ≤ 2147483647) where
  abbrev start : ℕ
  start = 5 * page - 5

  product-int : int (pos 5 *ℤ pos page) ≡ some (pos (5 * page))
  product-int = ap int (mul-pos 5 page) ∙ int-pos (5 * page) (omega arith)

  start-int : int (pos (5 * page) -ℤ pos 5) ≡ some (pos start)
  start-int = ap int (sub-pos (5 * page) 5 (omega arith)) ∙ int-pos start (omega arith)

  sum-int : int (pos start +ℤ pos entries) ≡ some (pos (start + entries))
  sum-int = ap int (add-pos start entries) ∙ int-pos (start + entries) (omega arith)

  last-int : int (pos (start + entries) -ℤ pos 1) ≡ some (pos (start + entries) -ℤ pos 1)
  last-int = int-last (start + entries) (omega arith)

  rounds : pos_part (pos (start + entries) -ℤ pos 1 +ℤ pos 1 -ℤ pos start) ≡ entries
  rounds = count-last (start + entries) start (omega arith) ∙ omega arith

  -- The child's work with what was read.
  module _ (env : Env) (file : Str) (w : World) (can : Allows env file)
      (small : length (content (w.files file)) ≤ 999) where
    abbrev page_of : Outcome (Unit {0})
    page_of =
        show_page env entries (pos start) (students_of (content (w.files file))) (touch file w)

    list_some-page :
        (o : Outcome (Unit {0}))
        → page_of ≡ o
        → list_some env file (pos page) (pos entries) w ≡ listed o
    unfolding list_some
    list_some-page (ok a w') e = rw (
      ==_ne can.named,
      fork-ok,
      can.forks,
      open_file-ok env file w can.opens,
      product-int,
      start-int,
      sum-int,
      last-int,
      load_small _ small,
      rounds,
      e,
      log_message-ok env _ w' can.logs,
    )
    list_some-page (exited s w') e = rw (
      ==_ne can.named,
      fork-ok,
      can.forks,
      open_file-ok env file w can.opens,
      product-int,
      start-int,
      sum-int,
      last-int,
      load_small _ small,
      rounds,
      e,
    )
    list_some-page fault e = rw (
      ==_ne can.named,
      fork-ok,
      can.forks,
      open_file-ok env file w can.opens,
      product-int,
      start-int,
      sum-int,
      last-int,
      load_small _ small,
      rounds,
      e,
    )

-- If the child starts and opens the file and the log, two files with names, and the file has at
-- most 999 bytes; for a page from 1 on, if the file has all the entries that are asked for from
-- the start of the page on, and five times the page and their number add up to an int: listSome
-- returns and prints these entries.
pub list_some_prints :
    (env : Env) (file : Str) (page entries : ℕ) (w : World)
    → Allows env file
    → length (content (w.files file)) ≤ 999
    → 1 ≤ page
    → 5 * page + entries ≤ 2147483647
    → 5 * page - 5 + entries ≤ length (students_of (content (w.files file)))
    → (w' : World) × (list_some env file (pos page) (pos entries) w ≡ ok tt w')
      × (w'.out
          ≡ w.out
            ++ grade_lines
                (take entries (drop (5 * page - 5) (students_of (content (w.files file))))))
list_some_prints env file page entries w can small from_one sum_int fits =
    let (w', shows, said) =
      show_page-in env (students_of (content (w.files file))) entries (5 * page - 5) (touch file w)
        fits in
    (
      logged (codes "Students are listed by page number") w',
      list_some-page page entries from_one sum_int env file w can small (ok tt w') shows,
      out-logged _ w' ∙ said ∙ rw (out-touch file w),
    )

-- If the child starts and opens the file and the log, two files with names, and the file has at
-- most 999 bytes; for a page from 1 on, if one entry or more is asked for, one of them behind the
-- last student of the file, and five times the page and their number add up to an int: listSome
-- reads a student that was never stored.
pub list_some_past :
    (env : Env) (file : Str) (page entries : ℕ) (w : World)
    → Allows env file
    → length (content (w.files file)) ≤ 999
    → 1 ≤ page
    → 5 * page + entries ≤ 2147483647
    → length (students_of (content (w.files file))) < 5 * page - 5 + entries
    → 1 ≤ entries
    → list_some env file (pos page) (pos entries) w ≡ fault
list_some_past env file page entries w can small from_one sum_int past one =
    list_some-page page entries from_one sum_int env file w can small fault (
      show_page-out env (students_of (content (w.files file))) entries (5 * page - 5) (touch file w)
        past one)
