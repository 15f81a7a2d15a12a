-- ===== src/Copier/Statistics/Totals.antt =====
-- What the statistics are, once all files are counted, in whatever order.
use system_related_in_c.Base.{
  ℕ, ◌+◌, ◌%◌, ◌≡◌, refl, ap, ◌∙◌, some, List, [], ◌∷◌, arith, length, total, if◌then◌else◌,
}
use system_related_in_c.Base.Int.{pos, ◌+ℤ◌}
use system_related_in_c.Copier.Buffer.{FileNames}
use system_related_in_c.Copier.Statistics.{
  Kind, FileStat, Statistics, is_fifo, is_regular, one_if, signed, residue, to_int, count_file,
  count_files, no_files, regular_file, fifo, another,
}

module _ {ℓ} {A : Type ℓ} where
  length-total : (xs : List A) → length xs ≡ total (λ x. 1) xs
  length-total [] = refl
  length-total (x ∷ xs) = omega (arith, length-total xs)

residue-add : (b n : ℕ) → residue (to_int (pos b) +ℤ pos n) ≡ (b + n) % 4294967296
residue-add b n = ground arith

-- Only the last 32 bits of the sum so far matter.
to_int-add : (b n : ℕ) → to_int (to_int (pos b) +ℤ pos n) ≡ to_int (pos (b + n))
to_int-add b n = ap signed (residue-add b n)

counts_regular :
    (k : Kind) → (if is_fifo k then 0 else one_if (is_regular k)) ≡ one_if (is_regular k)
counts_regular regular_file = refl
counts_regular fifo = refl
counts_regular another = refl

-- What the statistics of `files` are meant to be, with `n` directories: each counter is the number of
-- files of its kind, and `bytes_copied` the sum of the sizes in an int.
abbrev pub Printed : (FileNames → FileStat) → List FileNames → ℕ → Statistics → Type 0
Printed st files n t =
    (t.files_copied ≡ length files)
    × (t.directories_copied ≡ n)
    × (t.file_counter ≡ total (λ f. one_if (is_regular (st f).kind)) files)
    × (t.fifo_file_counter ≡ total (λ f. one_if (is_fifo (st f).kind)) files)
    × (t.bytes_copied ≡ to_int (pos (total (λ f. (st f).size) files)))

-- The statistics after counting `files`, from `s`.
pub record Counted (st : FileNames → FileStat) (files : List FileNames) (s t : Statistics)
    : Type 0 where
  pub copied : t.files_copied ≡ s.files_copied + length files
  pub regular : t.file_counter ≡ s.file_counter + total (λ f. one_if (is_regular (st f).kind)) files
  pub fifos :
      t.fifo_file_counter ≡ s.fifo_file_counter + total (λ f. one_if (is_fifo (st f).kind)) files
  pub directories : t.directories_copied ≡ s.directories_copied

bytes-counted :
    (unset : Kind) (st : FileNames → FileStat) (files : List FileNames) (s : Statistics) (b : ℕ)
    → s.bytes_copied ≡ to_int (pos b)
    → (count_files unset (λ f. some (st f)) files s).bytes_copied
      ≡ to_int (pos (b + total (λ f. (st f).size) files))
unfolding count_files count_file
bytes-counted unset st [] s b h = h ∙ ap (λ n. to_int (pos n)) {x = b} (omega arith)
bytes-counted unset st (f ∷ fs) s b h =
    bytes-counted unset st fs (count_file unset (some (st f)) s) (b + (st f).size)
      (ap (λ z. to_int (z +ℤ pos (st f).size)) h ∙ to_int-add b (st f).size)
    ∙ ap (λ n. to_int (pos n)) {x = b + (st f).size + total (λ f. (st f).size) fs} (omega arith)

files-Counted :
    (unset : Kind) (st : FileNames → FileStat) (files : List FileNames) (s : Statistics)
    → Counted st files s (count_files unset (λ f. some (st f)) files s)
unfolding count_files count_file
files-Counted unset st [] s = record {
  copied = omega arith;
  regular = omega arith;
  fifos = omega arith;
  directories = refl;
}
files-Counted unset st (f ∷ fs) s =
    let h = files-Counted unset st fs (count_file unset (some (st f)) s) in
    record {
      copied = omega (arith, h.copied);
      regular = omega (arith, h.regular, counts_regular (st f).kind);
      fifos = omega (arith, h.fifos);
      directories = h.directories;
    }

-- Two lists with the same totals give the same statistics.
pub statistics_of_totals :
    (unset : Kind) (st : FileNames → FileStat) (files counted : List FileNames) (n : ℕ)
    → ((w : FileNames → ℕ) → total w counted ≡ total w files)
    → Printed st files n (count_files unset (λ f. some (st f)) counted (no_files n))
statistics_of_totals unset st files counted n same =
    let h = files-Counted unset st counted (no_files n) in
    (
      omega (arith, h.copied, length-total counted, length-total files, same (λ f. 1)),
      h.directories,
      omega (arith, h.regular, same (λ f. one_if (is_regular (st f).kind))),
      omega (arith, h.fifos, same (λ f. one_if (is_fifo (st f).kind))),
      bytes-counted unset st counted (no_files n) 0 refl
          ∙ ap (λ n. to_int (pos n)) {x = 0 + total (λ f. (st f).size) counted}
              (omega (arith, same (λ f. (st f).size))),
    )
