-- ===== src/Copier/Walk.antt =====
-- The walk of `manager` through the directories. A directory stands for what `readdir` and `stat`
-- tell of it. The list of directories grows behind the current one.
pub mod Order
mod Tests
use system_related_in_c.Base.{
  ℕ, zero, suc, ◌+◌, Bool, true, false, ◌&&◌, ◌==◌, Option, none, some, List, [], ◌∷◌, ◌++◌,
  if◌then◌else◌,
}
use system_related_in_c.Copier.Buffer.{FileNames}

-- The entries of a directory in the order of `readdir`: regular files, entries of other kinds, and
-- directories, with whether `opendir` succeeds on one and the entries of that one.
pub data Entries : Type 0 where
  no_more : Entries
  regular : List ℕ → Entries → Entries
  other : List ℕ → Entries → Entries
  directory : List ℕ → Bool → Entries → Entries → Entries

-- `DirNode`, with what is found there.
pub record DirNode : Type 0 where
  pub src : List ℕ
  pub dest : List ℕ
  pub opens : Bool
  pub entries : Entries

-- `snprintf(…, "%s/%s", …)`
abbrev pub join : List ℕ → List ℕ → List ℕ
join path name = path ++ (b'/' ∷ name)

-- "." and ".."
abbrev pub is_dots : List ℕ → Bool
is_dots (c ∷ []) = c == b'.'
is_dots (c ∷ d ∷ []) = (c == b'.') && (d == b'.')
is_dots _ = false

abbrev pub task : List ℕ → List ℕ → List ℕ → FileNames
task src dest name = record {
  source_destination = join src name;
  target_destination = join dest name;
}

abbrev pub sub_node : List ℕ → List ℕ → List ℕ → Bool → Entries → DirNode
sub_node src dest name opens inner = record {
  src = join src name;
  dest = join dest name;
  opens = opens;
  entries = inner;
}

-- The loop over the entries: the files for the buffer, and the list behind the current node.
unfoldable pub scan : List ℕ → List ℕ → Entries → List DirNode → List FileNames × List DirNode
scan src dest no_more pending = ([], pending)
scan src dest (regular name rest) pending =
    let (files, later) = scan src dest rest pending in
    (if is_dots name then files else task src dest name ∷ files, later)
scan src dest (other name rest) pending = scan src dest rest pending
scan src dest (directory name opens inner rest) pending =
    let skipped = scan src dest rest pending in
    let added = scan src dest rest (sub_node src dest name opens inner ∷ pending) in
    if is_dots name then skipped else added

abbrev pub before : List FileNames → Option (List FileNames × ℕ) → Option (List FileNames × ℕ)
before files none = none
before files (some (later, n)) = some (files ++ later, n)

-- The loop over the directories, with fuel and with `directories_copied`.
unfoldable pub walk : (List ℕ → Bool) → ℕ → List DirNode → ℕ → Option (List FileNames × ℕ)
unfolding scan
walk mkdir zero pending n = none
walk mkdir (suc k) [] n = some ([], n)
walk mkdir (suc k) (current ∷ pending) n =
    let made = if mkdir current.dest then n + 1 else n in
    let (files, later) = scan current.src current.dest current.entries pending in
    let rest = walk mkdir k pending made in
    let deeper = walk mkdir k later made in if current.opens then before files deeper else rest
