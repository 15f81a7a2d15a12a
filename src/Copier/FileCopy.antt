-- ===== src/Copier/FileCopy.antt =====
-- `fileCopy`: a file is copied through a buffer of 4096 bytes. A path and a file are numbers, since
-- both are only compared, and several paths may lead to one file. How many bytes the disk still takes
-- is part of its state: a `write` takes as many of its bytes as that. A `read` may fail from some
-- byte of a file on.
pub mod Exact
mod Tests
use system_related_in_c.Base.{
  ℕ, zero, suc, ◌+◌, ◌-◌, Bool, true, false, leb, ◌&&◌, Option, none, some, List, [], ◌∷◌, ◌++◌, ltb, ◌==◌,
  if◌then◌else◌, length, take, drop,
}

pub record Disk : Type 0 where
  pub file_at : ℕ → ℕ  -- the file that a path leads to, or would create
  pub files : ℕ → Option (List ℕ)
  pub readable : ℕ → ℕ  -- how many bytes of a file `read` brings before it fails
  pub space : ℕ

-- How a call ends: it returns without a message, as it does behind the last `read` and behind one
-- that has failed, or it has printed one of its messages.
pub data Copied : Type 0 where
  silent : Copied
  no_source : Copied  -- "Error opening source file"
  no_target : Copied  -- "Error opening destination file"
  short_write : Copied  -- "Error writing to destination file"
  out_of_fuel : Copied

abbrev pub chunk_size : ℕ
chunk_size = 4096

abbrev pub content : Option (List ℕ) → List ℕ
content none = []
content (some c) = c

abbrev pub put_file : ℕ → List ℕ → (ℕ → Option (List ℕ)) → ℕ → Option (List ℕ)
put_file p c files q = if q == p then some c else files q

-- `read(fd1, buffer, sizeof(buffer))` at an offset; `none` is -1.
abbrev pub read_chunk : ℕ → ℕ → Disk → Option (List ℕ)
read_chunk source offset d =
    let left = drop offset (content (d.files source)) in
    if leb (d.readable source) offset && ltb 0 (length left)
    then none
    else some (take chunk_size (take (d.readable source - offset) left))

-- The bytes, if the result is above 0: the loop ends at 0 and at -1.
abbrev pub brought : Option (List ℕ) → List ℕ
brought none = []
brought (some bytes) = bytes

-- `write(fd2, buffer, …)` at the end of the file: what it has written, and the disk.
abbrev pub write_chunk : ℕ → List ℕ → Disk → ℕ × Disk
write_chunk target bytes d =
    let written = take d.space bytes in
    (
      length written,
      record d {
        files = put_file target (content (d.files target) ++ written) d.files;
        space = d.space - length written;
      },
    )

unfoldable pub copy_loop : ℕ → ℕ → ℕ → ℕ → Disk → Copied × Disk
copy_loop zero source target offset d = (out_of_fuel, d)
copy_loop (suc k) source target offset d =
    let bytes = brought (read_chunk source offset d) in
    let (written, d') = write_chunk target bytes d in
    let rest = copy_loop k source target (offset + length bytes) d' in
    if length bytes == 0
    then (silent, d)
    else if written == length bytes
    then rest
    else (short_write, d')

-- What follows `open(source_file, O_RDONLY)`, on the two files. Every round of the loop reads a byte.
unfoldable pub copy_to : (ℕ → Bool) → ℕ → ℕ → Disk → Option (List ℕ) → Copied × Disk
copy_to may_open source target d none = (no_source, d)
copy_to may_open source target d (some bytes) =
    if may_open target
    then copy_loop (length bytes + 1) source target 0
        (record d { files = put_file target [] d.files })
    else (no_target, d)

-- `may_open` tells which files the system creates or truncates.
unfoldable pub file_copy : (ℕ → Bool) → ℕ → ℕ → Disk → Copied × Disk
unfolding copy_to
file_copy may_open source_file target_file d =
    let source = d.file_at source_file in
    copy_to may_open source (d.file_at target_file) d (d.files source)
