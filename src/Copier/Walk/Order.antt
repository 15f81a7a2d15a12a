-- ===== src/Copier/Walk/Order.antt =====
-- The walk against a recursive description of what is found: the files of a directory itself, and
-- then its directories, the last one first.
use system_related_in_c.Base.{
  ℕ, zero, suc, ◌+◌, ◌<◌, ◌≡◌, refl, ap, Bool, Bool-cases, inl, inr, true, Option, some, List, [],
  ◌∷◌, ◌++◌, arith, append_assoc, append-nil, if◌then◌else◌,
}
use system_related_in_c.Copier.Buffer.{FileNames}
use system_related_in_c.Copier.Walk.{
  Entries, no_more, regular, other, directory, DirNode, join, is_dots, task, sub_node, scan, walk,
}

-- The regular files of a directory itself.
unfoldable pub own_files : List ℕ → List ℕ → Entries → List FileNames
own_files src dest no_more = []
own_files src dest (regular name rest) =
    let files = own_files src dest rest in
    if is_dots name then files else task src dest name ∷ files
own_files src dest (other name rest) = own_files src dest rest
own_files src dest (directory name opens inner rest) = own_files src dest rest

-- All files below the directories of a directory.
unfoldable pub deep_files : List ℕ → List ℕ → Entries → List FileNames
unfolding own_files
deep_files src dest no_more = []
deep_files src dest (regular name rest) = deep_files src dest rest
deep_files src dest (other name rest) = deep_files src dest rest
deep_files src dest (directory name opens inner rest) =
    let deeper = deep_files (join src name) (join dest name) inner in
    let own = own_files (join src name) (join dest name) inner in
    deep_files src dest rest ++ (if is_dots name then [] else if opens then own ++ deeper else [])

abbrev pub tree_files : DirNode → List FileNames
tree_files d =
    if d.opens then own_files d.src d.dest d.entries ++ deep_files d.src d.dest d.entries else []

abbrev pub all_files : List DirNode → List FileNames
all_files [] = []
all_files (d ∷ ds) = tree_files d ++ all_files ds

-- How many directories there are below one, and how many of them `mkdir` makes.
unfoldable pub dirs_below : (List ℕ → ℕ) → List ℕ → Entries → ℕ
dirs_below weight dest no_more = 0
dirs_below weight dest (regular name rest) = dirs_below weight dest rest
dirs_below weight dest (other name rest) = dirs_below weight dest rest
dirs_below weight dest (directory name opens inner rest) =
    let below = dirs_below weight (join dest name) inner in
    dirs_below weight dest rest
    + (if is_dots name then 0 else weight (join dest name) + (if opens then below else 0))

abbrev pub tree_dirs : (List ℕ → ℕ) → DirNode → ℕ
tree_dirs weight d = weight d.dest + (if d.opens then dirs_below weight d.dest d.entries else 0)

abbrev pub all_dirs : (List ℕ → ℕ) → List DirNode → ℕ
all_dirs weight [] = 0
all_dirs weight (d ∷ ds) = tree_dirs weight d + all_dirs weight ds

abbrev pub each : List ℕ → ℕ
each dest = 1

abbrev pub made : (List ℕ → Bool) → List ℕ → ℕ
made mkdir dest = if mkdir dest then 1 else 0

scan-files :
    (src dest : List ℕ) (e : Entries) (pending : List DirNode)
    → (scan src dest e pending).0 ≡ own_files src dest e
unfolding scan own_files
scan-files src dest no_more pending = refl
scan-files src dest (regular name rest) pending = rw (scan-files src dest rest pending)
scan-files src dest (other name rest) pending = scan-files src dest rest pending
scan-files src dest (directory name opens inner rest) pending = elim (Bool-cases (is_dots name)) [
  | inl e ↦ rw e (scan-files src dest rest pending)
  | inr e ↦ rw e (scan-files src dest rest (sub_node src dest name opens inner ∷ pending))
]

scan-deep :
    (src dest : List ℕ) (e : Entries) (pending : List DirNode)
    → all_files (scan src dest e pending).1 ≡ deep_files src dest e ++ all_files pending
unfolding scan deep_files
scan-deep src dest no_more pending = refl
scan-deep src dest (regular name rest) pending = scan-deep src dest rest pending
scan-deep src dest (other name rest) pending = scan-deep src dest rest pending
scan-deep src dest (directory name opens inner rest) pending = elim (Bool-cases (is_dots name)) [
  | inl e ↦ rw (e, append-nil) (scan-deep src dest rest pending)
  | inr e ↦
      rw (e, append_assoc) (scan-deep src dest rest (sub_node src dest name opens inner ∷ pending))
]

scan-dirs :
    (weight : List ℕ → ℕ) (src dest : List ℕ) (e : Entries) (pending : List DirNode)
    → all_dirs weight (scan src dest e pending).1
      ≡ dirs_below weight dest e + all_dirs weight pending
unfolding scan dirs_below
scan-dirs weight src dest no_more pending = omega arith
scan-dirs weight src dest (regular name rest) pending = scan-dirs weight src dest rest pending
scan-dirs weight src dest (other name rest) pending = scan-dirs weight src dest rest pending
scan-dirs weight src dest (directory name opens inner rest) pending = ground (
  arith,
  scan-dirs weight src dest rest pending,
  scan-dirs weight src dest rest (sub_node src dest name opens inner ∷ pending),
)

found-eq :
    {fs gs : List FileNames} {m n : ℕ}
    → fs ≡ gs
    → m ≡ n
    → ◌≡◌ {A = Option (List FileNames × ℕ)} (some (fs, m)) (some (gs, n))
found-eq e e' = cc

-- With more fuel than there are directories, the walk ends, and finds the files of each directory
-- that opens, one directory after the other and the last one of a directory first, and counts the
-- directories that mkdir makes.
pub walk_finds :
    (mkdir : List ℕ → Bool) (fuel : ℕ) (pending : List DirNode) (n : ℕ)
    → all_dirs each pending < fuel
    → walk mkdir fuel pending n ≡ some (all_files pending, n + all_dirs (made mkdir) pending)
unfolding walk
walk_finds mkdir zero pending n enough = absurd (omega arith)
walk_finds mkdir (suc k) [] n enough = ap (λ m. some ([], m)) (omega arith)
walk_finds mkdir (suc k) (d ∷ pending) n enough = elim (Bool-cases d.opens) [
  | inl e ↦
      rw (e, walk_finds mkdir k later m (omega (arith, deeper-bound e)))
        (found-eq (files-eq e) (count-eq e))
  | inr e ↦
      rw (e, walk_finds mkdir k pending m (omega (arith, bound))) (found-eq refl (ground arith))
]
  where
    m : ℕ
    m = if mkdir d.dest then n + 1 else n

    later : List DirNode
    later = (scan d.src d.dest d.entries pending).1

    bound : all_dirs each pending < k
    bound = ground arith

    deeper-bound : d.opens ≡ true → all_dirs each later < k
    deeper-bound e = ground (arith, scan-dirs each d.src d.dest d.entries pending)

    files-eq :
        d.opens ≡ true
        → (scan d.src d.dest d.entries pending).0 ++ all_files later
          ≡ own_files d.src d.dest d.entries
            ++ deep_files d.src d.dest d.entries
            ++ all_files pending
    files-eq e = rw (
      scan-files d.src d.dest d.entries pending,
      scan-deep d.src d.dest d.entries pending,
      append_assoc,
    )

    count-eq :
        d.opens ≡ true
        → m + all_dirs (made mkdir) later
          ≡ n
            + (made mkdir d.dest
                + dirs_below (made mkdir) d.dest d.entries
                + all_dirs (made mkdir) pending)
    count-eq e = ground (arith, scan-dirs (made mkdir) d.src d.dest d.entries pending)
