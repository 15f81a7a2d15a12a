-- ===== src/Copier/Statistics.antt =====
-- The statistics: what a worker adds behind a copy, and what `main` prints of them. The counters are
-- natural numbers; `bytes_copied` is an int to which a size of 64 bits is added.
pub mod Totals
pub mod Run
mod Tests
use system_related_in_c.Base.{
  ℕ, ◌+◌, ◌-◌, ◌%◌, Bool, true, false, Option, none, some, List, [], ◌∷◌, ltb, if◌then◌else◌,
}
use system_related_in_c.Base.Int.{ℤ, pos, negsuc, ◌+ℤ◌}
use system_related_in_c.Copier.Buffer.{FileNames}

-- `st_mode` and `st_size`.
pub data Kind : Type 0 where
  regular_file : Kind
  fifo : Kind
  another : Kind

pub record FileStat : Type 0 where
  pub kind : Kind
  pub size : ℕ

pub record Statistics : Type 0 where
  pub files_copied : ℕ
  pub directories_copied : ℕ
  pub bytes_copied : ℤ
  pub file_counter : ℕ
  pub fifo_file_counter : ℕ

abbrev pub is_fifo : Kind → Bool
is_fifo fifo = true
is_fifo _ = false

abbrev pub is_regular : Kind → Bool
is_regular regular_file = true
is_regular _ = false

abbrev pub one_if : Bool → ℕ
one_if b = if b then 1 else 0

abbrev pub signed : ℕ → ℤ
signed r = if ltb r 2147483648 then pos r else negsuc (4294967295 - r)

-- A value of 64 bits that is stored in an int keeps its last 32 bits.
abbrev pub residue : ℤ → ℕ
residue (pos n) = n % 4294967296
residue (negsuc n) = 4294967295 - n % 4294967296

abbrev pub to_int : ℤ → ℤ
to_int z = signed (residue z)

-- `bytes_copied += filestat.st_size`, if `stat` has succeeded.
abbrev pub add_bytes : Option FileStat → ℤ → ℤ
add_bytes none bytes = bytes
add_bytes (some st) bytes = to_int (bytes +ℤ pos st.size)

-- `filestat.st_mode`; `unset` is what the variable holds when `stat` has not set it.
abbrev pub mode : Kind → Option FileStat → Kind
mode unset none = unset
mode unset (some st) = st.kind

-- What a worker does with `buffer.stat` locked.
unfoldable pub count_file : Kind → Option FileStat → Statistics → Statistics
count_file unset st s =
    let m = mode unset st in
    record {
      files_copied = s.files_copied + 1;
      directories_copied = s.directories_copied;
      bytes_copied = add_bytes st s.bytes_copied;
      file_counter = s.file_counter + (if is_fifo m then 0 else one_if (is_regular m));
      fifo_file_counter = s.fifo_file_counter + one_if (is_fifo m);
    }

-- The initial values, with the directories that the manager counts.
abbrev pub no_files : ℕ → Statistics
no_files directories = record {
  files_copied = 0;
  directories_copied = directories;
  bytes_copied = pos 0;
  file_counter = 0;
  fifo_file_counter = 0;
}

-- The workers count the files one by one, since `buffer.stat` is locked, in some order.
unfoldable pub count_files :
    Kind → (FileNames → Option FileStat) → List FileNames → Statistics → Statistics
unfolding count_file
count_files unset stat [] s = s
count_files unset stat (f ∷ fs) s = count_files unset stat fs (count_file unset (stat f) s)
