-- ===== src/Grades/Commands/Sorting.antt =====
-- sortAll prints the students of the file in the order that was asked for.
use mathlib.Core.List.{Perm}
use system_related_in_c.Base.{
  ◌≤◌, ◌≡◌, refl, ◌∙◌, ap, true, List, [], ◌∷◌, ◌++◌, arith, length, ◌==◌, append-nil, append_assoc,
  ==_ne, subst, if◌then◌else◌,
}
use system_related_in_c.Grades.Text.{Str, codes, Sign, strcmp, is_zero, positive, negative}
use system_related_in_c.Grades.Text.Order.{AtMost, strcmp-flip}
use system_related_in_c.Grades.World.{Env, World, ok, content}
use system_related_in_c.Grades.World.Files.{
  log_file, touch, logged, out-logged, out-touch, open_file-ok, log_message-ok, fork-ok,
}
use system_related_in_c.Grades.Students.{Student, three_words}
use system_related_in_c.Grades.Students.Load.{students_of, load_small}
use system_related_in_c.Grades.Compare.{compare_by_name, compare_by_grade, sort_order_of}
use system_related_in_c.Grades.Compare.Laws.{
  IsOrder, IsDirection, compare_by_name-IsOrder, compare_by_grade-IsOrder,
}
use system_related_in_c.Grades.Commands.{
  record_line, show_sorted, sort_students, log_sorted, sort_all,
}
use system_related_in_c.Grades.Commands.Records.{Allows}

-- Each element is at most the next.
abbrev pub Ascending {ℓ} : {A : Type ℓ} → (A → A → Sign) → List A → Type 0
Ascending cmp [] = Unit
Ascending cmp (x ∷ []) = Unit
Ascending cmp (x ∷ y ∷ l) = AtMost (cmp x y) × Ascending cmp (y ∷ l)

-- What C says of `qsort`: the array keeps its elements, and is in order where the comparison is
-- an order. Elements that compare equal may end up either way.
pub record QsortContract (qsort : (Student → Student → Sign) → List Student → List Student)
    : Type 0 where
  pub perm : (cmp : Student → Student → Sign) (l : List Student) → Perm (qsort cmp l) l
  pub ascending :
      (cmp : Student → Student → Sign) (l : List Student)
      → IsOrder cmp
      → Ascending cmp (qsort cmp l)

-- The options -n and -g.
pub data Key : Type 0 where
  by_name : Key
  by_grade : Key

abbrev pub option_of : Key → Str
option_of by_name = codes "-n"
option_of by_grade = codes "-g"

-- The options -a and -d.
pub data Direction : Type 0 where
  up : Direction
  down : Direction

abbrev pub order_of : Direction → Str
order_of up = codes "-a"
order_of down = codes "-d"

-- What the program calls in order: by the first names, and by the surnames where these are equal,
-- or by the grades. Surnames always go up.
abbrev pub along : Direction → Str → Str → Sign
along up s t = strcmp s t
along down s t = strcmp t s

abbrev pub in_order : Key → Direction → Student → Student → Sign
in_order by_name d a b =
    if is_zero (along d a.name b.name) then strcmp a.surname b.surname else along d a.name b.name
in_order by_grade d a b = along d a.grade b.grade

abbrev comparison : Key → Direction → Student → Student → Sign
comparison by_name d = compare_by_name (sort_order_of (order_of d))
comparison by_grade d = compare_by_grade (sort_order_of (order_of d))

sort_order_of-up : sort_order_of (order_of up) ≡ positive
unfolding strcmp
sort_order_of-up = refl

sort_order_of-down : sort_order_of (order_of down) ≡ negative
unfolding strcmp
sort_order_of-down = refl

-- The comparisons of the program are these orders.
comparison-in_order :
    (k : Key) (d : Direction) (a b : Student) → comparison k d a b ≡ in_order k d a b
unfolding compare_by_name compare_by_grade
comparison-in_order by_name up a b = rw sort_order_of-up (ground arith)
comparison-in_order by_name down a b =
    rw sort_order_of-down (ground (arith, strcmp-flip a.name b.name))
comparison-in_order by_grade up a b = rw sort_order_of-up (ground arith)
comparison-in_order by_grade down a b =
    rw sort_order_of-down (ground (arith, strcmp-flip a.grade b.grade))

Ascending-map {ℓ} :
    {A : Type ℓ} (f g : A → A → Sign) (l : List A)
    → ((a b : A) → f a b ≡ g a b)
    → Ascending f l
    → Ascending g l
Ascending-map f g [] e h = tt
Ascending-map f g (x ∷ []) e h = tt
Ascending-map f g (x ∷ y ∷ l) e h = (subst AtMost (e x y) h.0, Ascending-map f g (y ∷ l) e h.1)

abbrev pub record_lines : List Student → Str
record_lines [] = []
record_lines (s ∷ l) = record_line s.name s.surname s.grade ++ record_lines l

sort_order-IsDirection : (order : Str) → IsDirection (sort_order_of order)
sort_order-IsDirection order = ground arith

comparison-IsOrder : (k : Key) (d : Direction) → IsOrder (comparison k d)
comparison-IsOrder by_name d = compare_by_name-IsOrder _ (sort_order-IsDirection (order_of d))
comparison-IsOrder by_grade d = compare_by_grade-IsOrder _ (sort_order-IsDirection (order_of d))

module _ (env : Env) (opens : env.open_ok log_file ≡ true) (clean : env.malloc_holds ≡ []) where
  block_empty : (length env.malloc_holds == 0) ≡ true
  block_empty = ap (λ m. length m == 0) clean

  show_sorted-lines :
      (l : List Student) (w : World)
      → (w' : World) × (show_sorted env l w ≡ ok tt w') × (w'.out ≡ w.out ++ record_lines l)
  unfolding show_sorted
  show_sorted-lines [] w = (w, refl, rw append-nil)
  show_sorted-lines (s ∷ l) w =
      let line = record_line s.name s.surname s.grade in
      let shown : World = record w { out = w.out ++ line } in
      let message = three_words s.name s.surname s.grade in
      let (w', rest, said) = show_sorted-lines l (logged message shown) in
      (
        w',
        rw (block_empty, log_message-ok env message shown opens, rest),
        said ∙ rw (out-logged message shown, append_assoc),
      )

  module _ (qsort : (Student → Student → Sign) → List Student → List Student) where
    sort_students-key :
        (k : Key) (d : Direction) (l : List Student)
        → sort_students env qsort (order_of d) (option_of k) l ≡ qsort (comparison k d) l
    sort_students-key by_name d l = unfold sort_students strcmp in refl
    sort_students-key by_grade d l = unfold sort_students strcmp in refl

    log_sorted-key :
        (k : Key) (w : World)
        → (w' : World) × (log_sorted env qsort (option_of k) w ≡ ok tt w') × (w'.out ≡ w.out)
    log_sorted-key by_name w =
        let message = codes "Student are sorted by name succesfully!" in
        (
          logged message w,
          unfold log_sorted strcmp in log_message-ok env message w opens,
          out-logged message w,
        )
    log_sorted-key by_grade w =
        let message = codes "Student are sorted by grade succesfully!" in
        (
          logged message w,
          unfold log_sorted strcmp in log_message-ok env message w opens,
          out-logged message w,
        )

-- If the child starts and opens the file and the log, two files with names, and the file has at
-- most 999 bytes, and with a `qsort` as C describes it and blocks of `malloc` that read as empty
-- strings: sortAll returns after it has printed the students of the file, each once, and each at
-- most the next by the key and the direction that were asked for.
pub sort_all_sorts :
    (env : Env) (file : Str) (k : Key) (d : Direction) (w : World)
    (qsort : (Student → Student → Sign) → List Student → List Student)
    → QsortContract qsort
    → Allows env file
    → env.malloc_holds ≡ []
    → length (content (w.files file)) ≤ 999
    → (w' : World) × (l : List Student) × (sort_all env qsort (order_of d) (option_of k) file w
        ≡ ok tt w')
      × (w'.out ≡ w.out ++ record_lines l)
      × Perm l (students_of (content (w.files file)))
      × Ascending (in_order k d) l
unfolding sort_all
sort_all_sorts env file k d w qsort contract can clean small =
    let students = students_of (content (w.files file)) in
    let sorted = qsort (comparison k d) students in
    let (w1, logs, quiet) = log_sorted-key env can.logs clean qsort k (touch file w) in
    let (w2, shows, said) = show_sorted-lines env can.logs clean sorted w1 in
    (
      w2,
      sorted,
      rw (
        ==_ne can.named,
        fork-ok,
        can.forks,
        open_file-ok env file w can.opens,
        load_small _ small,
        logs,
        sort_students-key env can.logs clean qsort k d students,
        shows,
      ),
      said ∙ rw (quiet, out-touch file w),
      contract.perm (comparison k d) students,
      Ascending-map (comparison k d) (in_order k d) sorted (comparison-in_order k d)
          (contract.ascending (comparison k d) students (comparison-IsOrder k d)),
    )
