-- ===== src/Shop/Fifo.antt =====
-- What the two queues of the shop promise: a list of items, first in first out. A caller that
-- takes from an empty queue, or adds when memory is exhausted, is stopped with status 1.
use system_related_in_c.Base.{
  ℕ, Bool, true, false, List, [], ◌∷◌, ◌++◌, ◌==◌, if◌then◌else◌, length,
}
use system_related_in_c.Shop.Memory.{Ptr, null}

-- A call of a client. `put` carries the address that `malloc` returns for the new node.
pub data Call (V : Type 0) : Type 0 where
  put : Ptr → V → Call V
  get : Call V
  ask_empty : Call V
  ask_size : Call V

pub data Reply (V : Type 0) : Type 0 where
  done : Reply V
  got : V → Reply V
  flag : Bool → Reply V
  number : ℕ → Reply V
  stopped : ℕ → Reply V
  broken : Reply V

module _ {V : Type 0} where
  abbrev pub is_nil : List V → Bool
  is_nil [] = true
  is_nil (x ∷ xs) = false

  unfoldable pub run : List (Call V) → List V → List (Reply V)
  run [] xs = []
  run (put a v ∷ calls) xs =
      let rest = run calls (xs ++ v ∷ []) in if a == null then stopped 1 ∷ [] else done ∷ rest
  run (get ∷ calls) [] = stopped 1 ∷ []
  run (get ∷ calls) (x ∷ xs) = got x ∷ run calls xs
  run (ask_empty ∷ calls) xs = flag (is_nil xs) ∷ run calls xs
  run (ask_size ∷ calls) xs = number (length xs) ∷ run calls xs
