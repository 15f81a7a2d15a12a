-- ===== src/Grades/Students/Append.antt =====
-- A record at the end of a file is one more student of it.
use system_related_in_c.Base.{
  ℕ, ◌≡◌, ◌≢◌, refl, some, List, [], ◌∷◌, ◌++◌, arith, append-nil, append_assoc, All, All-append,
  ◌⊎◌, inl, inr,
}
use system_related_in_c.Grades.Text.{Str, newline, space, tokens}
use system_related_in_c.Grades.Text.Split.{until_nul_self, tokens-cut, tokens-word}
use system_related_in_c.Grades.Text.Scan.{
  IsWord, word, scan_word-first, scan_word-next, scan_word-last, IsWord-bytes, IsWord-line,
}
use system_related_in_c.Grades.Students.{three_words, scan_student}
use system_related_in_c.Grades.Students.Load.{scanned, students_of}

pub scanned-append : (ls ms : List Str) → scanned (ls ++ ms) ≡ scanned ls ++ scanned ms
unfolding scanned
scanned-append [] ms = refl
scanned-append (l ∷ ls) ms = rw (scanned-append ls ms, append_assoc)

pub scan_student-words :
    (name surname grade : Str)
    → IsWord 49 name
    → IsWord 49 surname
    → IsWord 2 grade
    → scan_student (three_words name surname grade)
      ≡ some (record { name = name; surname = surname; grade = grade })
unfolding scan_student
scan_student-words name surname grade n s g = rw (
  scan_word-first 49 name (surname ++ (space ∷ grade)) n,
  scan_word-next 49 surname grade s,
  scan_word-last 2 grade g,
)

-- A file of whole lines.
abbrev pub Complete : Str → Type 0
Complete file = (file ≡ []) ⊎ ((b : Str) × (file ≡ b ++ newline ∷ []))

module _ (name surname grade : Str) (n : IsWord 49 name) (s : IsWord 49 surname)
    (g : IsWord 2 grade) where
  -- Three words with spaces have the bytes that words and spaces have.
  All-three_words :
      (P : ℕ → Type 0)
      → P space
      → All P name
      → All P surname
      → All P grade
      → All P (three_words name surname grade)
  All-three_words P at_space in_name in_surname in_grade =
      All-append P name _ in_name (at_space, All-append P surname _ in_surname (at_space, in_grade))

  record_line-tokens :
      tokens newline (three_words name surname grade ++ newline ∷ [])
      ≡ three_words name surname grade ∷ []
  record_line-tokens = rw (tokens-cut newline (three_words name surname grade) []) (
      one n (
        All-three_words (λ c. c ≢ newline) (omega arith) (IsWord-line 49 name n)
          (IsWord-line 49 surname s) (IsWord-line 2 grade g)))
    where
      one :
          {w : Str}
          → IsWord 49 w
          → All (λ c. c ≢ newline) (w ++ (space ∷ (surname ++ (space ∷ grade))))
          → tokens newline (w ++ (space ∷ (surname ++ (space ∷ grade)))) ++ tokens newline []
            ≡ (w ++ (space ∷ (surname ++ (space ∷ grade)))) ∷ []
      one (word c w' h le bytes) all = rw (tokens-word newline c _ all) (unfold tokens in refl)

  -- A record at the end of a file of whole lines is one more student.
  pub students_of-append :
      (file : Str)
      → Complete file
      → All (λ c. c ≢ 0) file
      → students_of (file ++ (three_words name surname grade ++ newline ∷ []))
        ≡ students_of file ++ record { name = name; surname = surname; grade = grade } ∷ []
  students_of-append file whole bytes =
      rw (until_nul_self _ all_bytes, until_nul_self file bytes) (lines whole)
    where
      all_bytes : All (λ c. c ≢ 0) (file ++ (three_words name surname grade ++ newline ∷ []))
      all_bytes =
          All-append (λ c. c ≢ 0) file _ bytes
            (All-append (λ c. c ≢ 0) (three_words name surname grade) (newline ∷ [])
              (All-three_words (λ c. c ≢ 0) (omega arith) (IsWord-bytes 49 name n)
                (IsWord-bytes 49 surname s) (IsWord-bytes 2 grade g))
              (omega arith, tt))

      last :
          scanned (three_words name surname grade ∷ [])
          ≡ record { name = name; surname = surname; grade = grade } ∷ []
      last = unfold scanned in rw (scan_student-words name surname grade n s g)

      lines :
          Complete file
          → scanned (tokens newline (file ++ (three_words name surname grade ++ newline ∷ [])))
            ≡ scanned (tokens newline file)
              ++ record { name = name; surname = surname; grade = grade } ∷ []
      lines (inl e) = rw (e, record_line-tokens, last) (unfold tokens scanned in refl)
      lines (inr (b, e)) =
          rw
            (
              e,
              append_assoc,
              tokens-cut newline b (three_words name surname grade ++ newline ∷ []),
              tokens-cut newline b [],
              record_line-tokens,
              scanned-append,
              scanned-append,
              last,
            )
            (unfold tokens scanned in rw append-nil)
