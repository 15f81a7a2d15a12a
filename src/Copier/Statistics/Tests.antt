-- ===== src/Copier/Statistics/Tests.antt =====
-- Statistics of a run with three files.
use system_related_in_c.Base.{ℕ, ◌*◌, ◌≡◌, refl, some, none, List, [], ◌∷◌, arith}
use system_related_in_c.Base.Int.{pos, negsuc}
use system_related_in_c.Copier.Buffer.{FileNames}
use system_related_in_c.Copier.Statistics.{
  FileStat, Statistics, count_file, count_files, no_files, regular_file, fifo, another,
}
use system_related_in_c.Copier.Statistics.Totals.{Printed}
use system_related_in_c.Copier.Statistics.Run.{statistics-Printed}
use system_related_in_c.Copier.Schedule.{Reached, run, rounds}

abbrev named : ℕ → FileNames
named c = record { source_destination = c ∷ []; target_destination = c ∷ c ∷ [] }

abbrev size_of : List ℕ → ℕ
size_of [] = 0
size_of (c ∷ l) = c * 500000000

-- Files of 500, 1000 and 1500 million bytes.
abbrev stat_of : FileNames → FileStat
stat_of f = record { kind = regular_file; size = size_of f.source_destination }

abbrev files : List FileNames
files = named 1 ∷ named 2 ∷ named 3 ∷ []

abbrev slots : List FileNames
slots = named 0 ∷ named 0 ∷ []

abbrev whole_run : Reached slots 2 files
whole_run = run slots 2 files (rounds 60 [])

abbrev printed : Statistics
printed = count_files another (λ f. some (stat_of f)) whole_run.last.shared.counted (no_files 1)

statistics-Printed_example : Printed stat_of files 1 printed
unfolding run
statistics-Printed_example =
    statistics-Printed another stat_of 1 (omega arith) whole_run.reach (omega arith)
      (refl, (refl, tt))

-- Three thousand million bytes are printed as a negative number.
bytes_wrap : printed.bytes_copied ≡ negsuc 1294967295
unfolding run count_files count_file
bytes_wrap = refl

-- Where `stat` fails, what the variable held before says which counter goes up.
stat_fails : count_file fifo none (no_files 0) ≡ record {
  files_copied = 1;
  directories_copied = 0;
  bytes_copied = pos 0;
  file_counter = 0;
  fifo_file_counter = 1;
}
unfolding count_file
stat_fails = refl
