-- ===== src/Copier/Buffer.antt =====
-- The buffer that manager and workers share: a ring of tasks.
pub mod Ring
use system_related_in_c.Base.{ℕ, ◌+◌, ◌-◌, ◌%◌, ◌≡◌, Option, List, get_elem?, set}

pub record FileNames : Type 0 where
  pub source_destination : List ℕ
  pub target_destination : List ℕ

-- Of the fields of the struct, the mutexes and conditions are kept with the threads.
pub record Buffer : Type 0 where
  pub tasks : List FileNames
  pub in_index : ℕ
  pub out_index : ℕ
  pub count : ℕ
  pub buff_size : ℕ

-- The two calls of `strcpy` of the manager into `tasks[in]`.
abbrev pub store_task : FileNames → Buffer → Buffer
store_task file b = record b { tasks = set b.tasks b.in_index file }

-- The manager's `in = (in + 1) % buffSize; count++`
abbrev pub advance_in : Buffer → Buffer
advance_in b = record b { in_index = (b.in_index + 1) % b.buff_size; count = b.count + 1 }

-- The two calls of `strcpy` of a worker from `tasks[out]`; none for a read behind the array.
abbrev pub read_task : Buffer → Option FileNames
read_task b = get_elem? b.tasks b.out_index

-- A worker's `out = (out + 1) % buffSize; count--`, which runs only at a count of 1 or more.
abbrev pub advance_out : Buffer → Buffer
advance_out b = record b { out_index = (b.out_index + 1) % b.buff_size; count = b.count - 1 }
