-- ===== src/Grades/Students/Load.antt =====
-- What the commands read of a file that one call of `read` brings whole.
use system_related_in_c.Base.{
  ℕ, zero, suc, ◌+◌, ◌≤◌, ◌<◌, ◌≡◌, refl, true, Option, none, some, List, [], ◌∷◌, ◌++◌, arith,
  append-nil, append_assoc, length, length-append, take, take-all, drop-all, take-append, inl, inr,
  Bool-cases, ==_iff, ne_of_==, ltb, ◌==◌,
}
use system_related_in_c.Grades.Text.{Str, newline, until_nul, tokens}
use system_related_in_c.Grades.Text.Split.{length-tokens-le, length-until_nul-le}
use system_related_in_c.Grades.Students.{
  Student, ◌>>=◌, scan_student, add_scanned, store_line, store_lines, reads, store_reads, load,
  store_lines_to_five, store_reads_to_five, load_to_five,
}

-- The students that lines hold, in order.
unfoldable pub scanned : List Str → List Student
scanned [] = []
scanned (line ∷ lines) = add_scanned [] (scan_student line) ++ scanned lines

-- The students of a file, by its lines.
abbrev pub students_of : Str → List Student
students_of file = scanned (tokens newline (until_nul file))

add_scanned-append :
    (students : List Student) (o : Option Student)
    → add_scanned students o ≡ students ++ add_scanned [] o
add_scanned-append students none = rw append-nil
add_scanned-append students (some s) = refl

length-add_scanned-le :
    (students : List Student) (o : Option Student)
    → length (add_scanned students o) ≤ length students + 1
length-add_scanned-le students none = omega arith
length-add_scanned-le students (some s) = omega (arith, length-append {0} students (s ∷ []))

-- The array takes what its size allows.
store_lines-scanned :
    (students : List Student) (lines : List Str)
    → length students + length lines ≤ 1000
    → store_lines students lines ≡ some (students ++ scanned lines)
unfolding store_lines store_line scanned
store_lines-scanned students [] fits = rw append-nil
store_lines-scanned students (l ∷ ls) fits = rw (
  ltb_room,
  store_lines-scanned (add_scanned students (scan_student l)) ls
      (omega (arith, length-add_scanned-le students (scan_student l))),
  add_scanned-append students (scan_student l),
  append_assoc,
)
  where
    ltb_room : ltb (length students) 1000 ≡ true
    ltb_room = ground arith

reads-nil : (k : ℕ) → reads k [] ≡ []
unfolding reads
reads-nil zero = refl
reads-nil (suc k) = refl

reads-small :
    (c : ℕ) (s : Str) → length (c ∷ s) ≤ 999 → reads (length (c ∷ s)) (c ∷ s) ≡ (c ∷ s) ∷ []
unfolding reads
reads-small c s le = rw (take-all 999 (c ∷ s) le, drop-all 999 (c ∷ s) le, reads-nil)

load_lem : (file : Str) → load file ≡ store_reads [] (reads (length file) file)
unfolding load
load_lem file = refl

load_to_five_lem :
    (file : Str) → load_to_five file ≡ store_reads_to_five [] (reads (length file) file)
unfolding load_to_five
load_to_five_lem file = refl

>>=-some : {A : Type 0} (m : Option A) → (m >>= λ a. some a) ≡ m
>>=-some none = refl
>>=-some (some a) = refl

store_reads-one :
    (part : Str) → store_reads [] (part ∷ []) ≡ store_lines [] (tokens newline (until_nul part))
unfolding store_reads
store_reads-one part = >>=-some (store_lines [] (tokens newline (until_nul part)))

store_reads_to_five-one :
    (part : Str)
    → store_reads_to_five [] (part ∷ []) ≡ store_lines_to_five [] (tokens newline (until_nul part))
unfolding store_reads_to_five
store_reads_to_five-one part = >>=-some (store_lines_to_five [] (tokens newline (until_nul part)))

-- A file of at most 999 bytes is read as the students of its lines, and the array has room.
pub load_small : (file : Str) → length file ≤ 999 → load file ≡ some (students_of file)
load_small [] small = unfold load scanned tokens in refl
load_small (c ∷ s) small = rw (
  load_lem,
  reads-small c s small,
  store_reads-one,
  store_lines-scanned [] (tokens newline (until_nul (c ∷ s)))
      (omega (arith, length-tokens-le newline (until_nul (c ∷ s)), length-until_nul-le (c ∷ s))),
)

store_lines_to_five-take :
    (students : List Student) (lines : List Str)
    → length students < 5
    → store_lines_to_five students lines ≡ some (take 5 (students ++ scanned lines))
unfolding store_lines_to_five store_line scanned
store_lines_to_five-take students [] few = rw (append-nil, take-all 5 students (omega arith))
store_lines_to_five-take students (l ∷ ls) few = elim (Bool-cases (length more == 5)) [
  | inl five ↦
      rw (ltb_room, five, shape, take-append 5 more (scanned ls) ((==_iff (length more) 5).0 five))
  | inr less ↦
      rw (ltb_room, less, shape)
        (store_lines_to_five-take more ls
          (omega (arith, ne_of_== less, length-add_scanned-le students (scan_student l))))
]
  where
    more : List Student
    more = add_scanned students (scan_student l)

    ltb_room : ltb (length students) 1000 ≡ true
    ltb_room = ground arith

    shape : students ++ (add_scanned [] (scan_student l) ++ scanned ls) ≡ more ++ scanned ls
    shape = rw (add_scanned-append students (scan_student l), append_assoc)

-- Of a file of at most 999 bytes, the loop that stops at five reads the first five students of
-- its lines, or all if it has fewer.
pub load_to_five_small :
    (file : Str) → length file ≤ 999 → load_to_five file ≡ some (take 5 (students_of file))
load_to_five_small [] small = unfold load_to_five scanned tokens in refl
load_to_five_small (c ∷ s) small = rw (
  load_to_five_lem,
  reads-small c s small,
  store_reads_to_five-one,
  store_lines_to_five-take [] (tokens newline (until_nul (c ∷ s))) (omega arith),
)
