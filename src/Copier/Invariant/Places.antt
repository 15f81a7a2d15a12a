-- ===== src/Copier/Invariant/Places.antt =====
-- What a step of a worker does to what is shared, by its place.
use system_related_in_c.Base.{
  ℕ, ◌+◌, ◌≤◌, ◌<◌, ◌≡◌, ◌⊎◌, inl, inr, refl, sym, ap, ◌∙◌, Option, some, List, [], ◌∷◌, ◌++◌,
  arith, true, false, length, length-append, append-nil,
}
use system_related_in_c.Copier.Buffer.{FileNames, advance_out}
use system_related_in_c.Copier.Threads.{Shared, WorkerPc, ManagerPc, worker_step}
use system_related_in_c.Copier.Invariant.Defs.{
  worker_sync, manager_sync, in_flight, held, WorkerFresh, ManagerFresh, Idle,
}

-- A worker without the mutex, and with the flag as it was, keeps what it knows.
pub WorkerFresh-keep :
    (s s' : Shared) (p : WorkerPc)
    → s'.active ≡ s.active
    → (worker_sync p ≡ 0) ⊎ (s'.buffer ≡ s.buffer)
    → WorkerFresh s p
    → WorkerFresh s' p
WorkerFresh-keep s s' WorkerPc.starting e w f = tt
WorkerFresh-keep s s' (WorkerPc.advancing g) e (inl w) f = absurd (omega arith)
WorkerFresh-keep s s' (WorkerPc.advancing g) e (inr w) f = (rw w f.0, rw w f.1)
WorkerFresh-keep s s' p e w f = ground arith

pub ManagerFresh-keep :
    (s s' : Shared) (rest : List FileNames) (m : ManagerPc)
    → s'.active ≡ s.active
    → (manager_sync m ≡ 0) ⊎ (s'.buffer ≡ s.buffer)
    → ManagerFresh s rest m
    → ManagerFresh s' rest m
ManagerFresh-keep s s' rest (ManagerPc.advancing g) e (inl w) f = absurd (omega arith)
ManagerFresh-keep s s' rest (ManagerPc.advancing g) e (inr w) f = (rw e f.0, rw w f.1, rw w f.2)
ManagerFresh-keep s s' rest ManagerPc.ended e w f = ground arith
ManagerFresh-keep s s' rest m e w f = ground arith

-- Where the flag is clear the manager has ended.
pub ManagerFresh-ended :
    (s : Shared) (rest : List FileNames) (m : ManagerPc)
    → ManagerFresh s rest m
    → s.active ≡ false
    → (m ≡ ManagerPc.ended) × (rest ≡ [])
ManagerFresh-ended s rest ManagerPc.ended f e = (refl, f.1)
ManagerFresh-ended s rest m f e = absurd (ground arith)

-- With an empty buffer no worker has work.
pub Idle-of : (s : Shared) (p : WorkerPc) → WorkerFresh s p → s.buffer.count ≡ 0 → Idle p
Idle-of s WorkerPc.reading f e = absurd (omega arith)
Idle-of s (WorkerPc.advancing g) f e = absurd (omega arith)
Idle-of s p f e = ground arith

pub length-zero : (xs : List FileNames) → length xs ≡ 0 → xs ≡ []
length-zero [] e = refl
length-zero (x ∷ xs) e = absurd (omega arith)

-- All is taken where nothing is left anywhere.
pub all-taken :
    (taken content rest files : List FileNames) (m : ManagerPc)
    → taken ++ content ++ held m ++ rest ≡ files
    → length content ≡ 0
    → (m ≡ ManagerPc.ended) × (rest ≡ [])
    → taken ≡ files
all-taken taken content rest files m acc nothing over =
    sym
      (rw (length-zero content nothing, ap held over.0, over.1, append-nil, append-nil, append-nil))
    ∙ acc

pub some-eq : {x y : FileNames} {o : Option FileNames} → o ≡ some x → o ≡ some y → x ≡ y
some-eq e e' = cc

-- Only a worker that is advancing changes the buffer and what is taken.
pub data Effect (s s' : Shared) : WorkerPc → Type 0 where
  quiet : {p : WorkerPc} → s'.buffer ≡ s.buffer → s'.taken ≡ s.taken → Effect s s' p
  takes :
      (f : FileNames)
      → s'.buffer ≡ advance_out s.buffer
      → s'.taken ≡ s.taken ++ f ∷ []
      → Effect s s' (WorkerPc.advancing f)

pub Effect-Idle :
    (s s' : Shared) (p : WorkerPc)
    → Effect s s' p
    → Idle p
    → (s'.buffer ≡ s.buffer) × (s'.taken ≡ s.taken)
Effect-Idle s s' p (quiet same same') f = (same, same')
Effect-Idle s s' p (takes g same same') f = absurd f

module _ (n : ℕ) (s : Shared) {s' : Shared} where
  -- A worker leaves the flag alone.
  pub worker-active :
      (p : WorkerPc) {p' : WorkerPc} → worker_step n s p ≡ some (s', p') → s'.active ≡ s.active
  unfolding worker_step
  worker-active WorkerPc.starting e = ground arith
  worker-active p e = ground arith

  pub worker-Effect :
      (p : WorkerPc) {p' : WorkerPc} → worker_step n s p ≡ some (s', p') → Effect s s' p
  unfolding worker_step
  worker-Effect (WorkerPc.advancing f) e = takes f (ground arith) (ground arith)
  worker-Effect WorkerPc.starting e = quiet (ground arith) (ground arith)
  worker-Effect p e = quiet (ground arith) (ground arith)

  -- What a worker takes out is counted when it is through with it.
  pub worker-counted :
      (p p' : WorkerPc)
      → worker_step n s p ≡ some (s', p')
      → s'.files_copied + in_flight p' + length s.taken
        ≡ s.files_copied + in_flight p + length s'.taken
  unfolding worker_step
  worker-counted (WorkerPc.advancing f) p' e = ground (arith, length-append s.taken (f ∷ []))
  worker-counted WorkerPc.starting p' e = ground arith
  worker-counted p p' e = ground arith

  -- Where the buffer is empty no worker finds work.
  pub Idle-next :
      (p p' : WorkerPc) → Idle p → s.buffer.count ≡ 0 → worker_step n s p ≡ some (s', p') → Idle p'
  unfolding worker_step
  Idle-next WorkerPc.starting p' f z e = ground arith
  Idle-next p p' f z e = ground arith

  module _ (live : (s.active ≡ true) ⊎ (0 < s.buffer.count)) where
    -- What a worker does to the mutex shows in what it has locked.
    pub worker-sync :
        (p p' : WorkerPc)
        → WorkerFresh s p
        → s.buffer_sync + worker_sync p ≤ 1
        → worker_step n s p ≡ some (s', p')
        → s'.buffer_sync + worker_sync p' ≡ s.buffer_sync + worker_sync p
    unfolding worker_step
    worker-sync WorkerPc.starting p' f b e = ground arith
    worker-sync p p' f b e = ground arith

    -- What a worker knows at its next place.
    pub worker-fresh :
        (p p' : WorkerPc) → WorkerFresh s p → worker_step n s p ≡ some (s', p') → WorkerFresh s' p'
    unfolding worker_step
    worker-fresh WorkerPc.starting p' f e = ground arith
    worker-fresh p p' f e = ground arith
