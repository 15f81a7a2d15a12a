-- ===== src/Copier/FileCopy/Tests.antt =====
-- `fileCopy` on a small disk, and the theorems at it.
use system_related_in_c.Base.{◌≡◌, refl, true, none, some, [], ◌∷◌, ◌==◌, if◌then◌else◌}
use system_related_in_c.Copier.FileCopy.{Disk, silent, copy_loop, copy_to, file_copy}
use system_related_in_c.Copier.FileCopy.Exact.{Leaves, file_copy-Leaves, file_copy-same}

-- File 1 has three bytes, and the disk takes two more. The paths 1 and 3 lead to file 1.
abbrev disk : Disk
disk = record {
  file_at = λ p. if p == 3 then 1 else p;
  files = λ p. if p == 1 then some (7 ∷ 8 ∷ 9 ∷ []) else none;
  readable = λ p. 3;
  space = 2;
}

-- The second byte of file 1 cannot be read.
abbrev bad : Disk
bad = record disk { readable = λ p. 1 }

short_test : (file_copy (λ p. true) 1 2 disk).1.files 2 ≡ some (7 ∷ 8 ∷ [])
unfolding file_copy copy_to copy_loop
short_test = refl

-- A `read` that fails ends the copy without a word.
bad_test : Leaves 2 (7 ∷ []) silent bad (file_copy (λ p. true) 1 2 bad)
bad_test = file_copy-Leaves (λ p. true) 1 2 (7 ∷ 8 ∷ 9 ∷ []) bad refl refl (λ e. cc e)

file_copy-same_example :
    ((file_copy (λ p. true) 1 3 disk).0 ≡ silent)
    × ((file_copy (λ p. true) 1 3 disk).1.files 1 ≡ some [])
file_copy-same_example = file_copy-same (λ p. true) 1 3 (7 ∷ 8 ∷ 9 ∷ []) disk refl refl refl
