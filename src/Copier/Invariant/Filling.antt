-- ===== src/Copier/Invariant/Filling.antt =====
-- What a step of the manager does to what is shared, by its place.
use mathlib.Core.Option.{some-injective}
use system_related_in_c.Base.{
  ◌+◌, ◌≤◌, ◌≡◌, ◌≢◌, refl, ◌∙◌, subst, some, List, [], ◌∷◌, ◌++◌, arith, false, append_assoc,
}
use system_related_in_c.Copier.Buffer.{FileNames, store_task, advance_in}
use system_related_in_c.Copier.Threads.{Shared, WorkerPc, ManagerPc, manager_step}
use system_related_in_c.Copier.Invariant.Defs.{manager_sync, held, WorkerFresh, ManagerFresh}

-- What a step of the manager does to the buffer and to what it has found.
pub data Change (s s' : Shared) (rest rest' : List FileNames) : ManagerPc → ManagerPc → Type 0 where
  quiet :
      {m m' : ManagerPc}
      → s'.buffer ≡ s.buffer
      → s'.active ≡ s.active
      → held m' ++ rest' ≡ held m ++ rest
      → ManagerFresh s' rest' m'
      → Change s s' rest rest' m m'
  stores :
      (f : FileNames)
      → s'.buffer ≡ store_task f s.buffer
      → s'.active ≡ s.active
      → rest' ≡ rest
      → Change s s' rest rest' (ManagerPc.storing f) (ManagerPc.advancing f)
  advances :
      (f : FileNames)
      → s'.buffer ≡ advance_in s.buffer
      → s'.active ≡ s.active
      → rest' ≡ rest
      → Change s s' rest rest' (ManagerPc.advancing f) ManagerPc.unlocking
  closes :
      s'.buffer ≡ s.buffer
      → s'.active ≡ false
      → rest ≡ []
      → rest' ≡ []
      → Change s s' rest rest' ManagerPc.next_file ManagerPc.ended

pub via :
    (s : Shared) (rest : List FileNames) (m : ManagerPc)
    {r r' : Shared × List FileNames × ManagerPc}
    → some r ≡ some r'
    → Change s r.0 rest r.1 m r.2
    → Change s r'.0 rest r'.1 m r'.2
via s rest m e c = subst (λ r. Change s r.0 rest r.1 m r.2) (some-injective _ _ e) c

module _ (s : Shared) {s' : Shared} where
  pub manager-counts :
      (rest : List FileNames) (m : ManagerPc) {rest' : List FileNames} {m' : ManagerPc}
      → manager_step s rest m ≡ some (s', rest', m')
      → (s'.taken ≡ s.taken) × (s'.files_copied ≡ s.files_copied)
  unfolding manager_step
  manager-counts [] ManagerPc.next_file e = ground arith
  manager-counts (f ∷ rest) ManagerPc.next_file e = ground arith
  manager-counts rest m e = ground arith

  -- What the manager does to the mutex shows in what it has locked.
  pub manager-sync :
      (rest rest' : List FileNames) (m m' : ManagerPc)
      → s.buffer_sync + manager_sync m ≤ 1
      → manager_step s rest m ≡ some (s', rest', m')
      → s'.buffer_sync + manager_sync m' ≡ s.buffer_sync + manager_sync m
  unfolding manager_step
  manager-sync [] rest' ManagerPc.next_file m' b e = ground arith
  manager-sync (f ∷ rest) rest' ManagerPc.next_file m' b e = ground arith
  manager-sync rest rest' m m' b e = ground arith

  pub manager-Change :
      (rest rest' : List FileNames) (m m' : ManagerPc)
      → s.buffer.count ≤ s.buffer.buff_size
      → ManagerFresh s rest m
      → manager_step s rest m ≡ some (s', rest', m')
      → Change s s' rest rest' m m'
  unfolding manager_step
  manager-Change [] rest' ManagerPc.next_file m' b f e =
      via s [] ManagerPc.next_file e (closes refl refl refl refl)
  manager-Change rest rest' (ManagerPc.storing g) m' b f e =
      via s rest (ManagerPc.storing g) e (stores g refl refl refl)
  manager-Change rest rest' (ManagerPc.advancing g) m' b f e =
      via s rest (ManagerPc.advancing g) e (advances g refl refl refl)
  manager-Change (g ∷ rest) rest' ManagerPc.next_file m' b f e =
      quiet (ground arith) (ground arith) (ground arith) (ground arith)
  manager-Change rest rest' m m' b f e =
      quiet (ground arith) (ground arith) (ground arith) (ground arith)

pub regroup : (a b c d : List FileNames) → a ++ b ++ c ++ d ≡ a ++ (b ++ (c ++ d))
regroup a b c d = append_assoc (a ++ b) c d ∙ append_assoc a b (c ++ d)

-- Clearing the flag takes nothing from what workers know.
pub WorkerFresh-clear :
    (s s' : Shared) (p : WorkerPc)
    → s'.active ≡ false
    → s'.buffer ≡ s.buffer
    → WorkerFresh s p
    → WorkerFresh s' p
WorkerFresh-clear s s' (WorkerPc.advancing g) a same f = (rw same f.0, rw same f.1)
WorkerFresh-clear s s' p a same f = ground arith

pub manager_step-ended :
    (s u : Shared) (rest rest' : List FileNames) (m m' : ManagerPc)
    → m ≡ ManagerPc.ended
    → manager_step s rest m ≢ some (u, rest', m')
unfolding manager_step
manager_step-ended s u rest rest' ManagerPc.ended m' is e = ground arith
manager_step-ended s u rest rest' m m' is e = ground arith
