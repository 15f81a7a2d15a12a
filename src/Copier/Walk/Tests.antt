-- ===== src/Copier/Walk/Tests.antt =====
-- A small tree of directories, and the theorems at it.
use system_related_in_c.Base.{ℕ, ◌≡◌, true, some, List, [], ◌∷◌, arith}
use system_related_in_c.Copier.Buffer.{FileNames}
use system_related_in_c.Copier.Walk.{no_more, regular, directory, DirNode, task, walk}
use system_related_in_c.Copier.Walk.Order.{own_files, deep_files, dirs_below, walk_finds}
use system_related_in_c.Copier.Schedule.{Reached, run, rounds}

-- The directory holds ".", the file "f", the directory "d" with the file "g", and the directory "e"
-- with the file "h".
abbrev root : DirNode
root = record {
  src = b's' ∷ [];
  dest = b't' ∷ [];
  opens = true;
  entries = directory (46 ∷ []) true no_more (
      regular (102 ∷ []) (
        directory (100 ∷ []) true (regular (103 ∷ []) no_more)
          (directory (101 ∷ []) true (regular (104 ∷ []) no_more) no_more)));
}

abbrev at : List ℕ → ℕ → FileNames
at path name = task (b's' ∷ path) (b't' ∷ path) (name ∷ [])

-- The later directory comes first.
walk_finds_example :
    walk (λ p. true) 4 (root ∷ []) 0
    ≡ some (at [] 102 ∷ at (47 ∷ 101 ∷ []) 104 ∷ at (47 ∷ 100 ∷ []) 103 ∷ [], 3)
unfolding own_files deep_files dirs_below
walk_finds_example = walk_finds (λ p. true) 4 (root ∷ []) 0 (omega arith)

abbrev slots : List FileNames
slots = at [] 0 ∷ at [] 0 ∷ []

abbrev finished : Reached slots 2 (at [] 102 ∷ at (47 ∷ 101 ∷ []) 104 ∷ at (47 ∷ 100 ∷ []) 103 ∷ [])
finished =
    run slots 2 (at [] 102 ∷ at (47 ∷ 101 ∷ []) 104 ∷ at (47 ∷ 100 ∷ []) 103 ∷ []) (rounds 60 [])
