-- ===== src/Shop/Client/Listener.antt =====
-- `listener_thread` of client.c.
pub mod Lines
use system_related_in_c.Base.{
  ℕ, Bool, true, false, ◌||◌, Option, none, some, List, [], ◌∷◌, ◌++◌, ◌==◌, if◌then◌else◌,
}
use system_related_in_c.Grades.Text.{Str, codes, newline, same, until_nul}

-- What one call of `recv` gives: no more bytes than the buffer has room for.
pub data Received : Type 0 where
  bytes : Str → Received
  closed : Received
  failed : Received

pub data Event : Type 0 where
  response : Str → Event  -- printed and put into client.log
  served : Event  -- the end of the visit: shouldExit is 0, and the threads are cancelled
  cancelled : Event
  server_closed : Event
  recv_failed : Event

-- The line `line` is complete, and `first` is what stands at the beginning of the buffer.
abbrev pub heard : Str → Str → List Event
heard first line =
    if same first (codes "OK")
    then []
    else if same first (codes "ALL ORDERS SERVED")
    then response line ∷ served ∷ []
    else if same first (codes "ALL ORDERS CANCEL")
    then response line ∷ cancelled ∷ []
    else response line ∷ []

abbrev pub first_of : Option Str → Str → Str
first_of none line = line
first_of (some f) line = f

abbrev pub after_line : List Event → List Event × Str → List Event × Str
after_line es (rest, left) = (es ++ rest, left)

-- The loop over the buffer: `line` is what stands from `start` on so far, and `first` the first line,
-- once its newline has been overwritten. It gives what is moved to the front of the buffer.
unfoldable pub scan : Option Str → Str → Str → List Event × Str
scan first line [] = ([], line)
scan first line (c ∷ s) =
    let f = first_of first line in
    let done = scan (some f) [] s in
    let more = scan first (line ++ c ∷ []) s in
    if c == newline then after_line (heard (until_nul f) (until_nul line)) done else more

abbrev pub ends : Event → Bool
ends served = true
ends cancelled = true
ends _ = false

abbrev pub any_ends : List Event → Bool
any_ends [] = false
any_ends (e ∷ es) = ends e || any_ends es

-- The thread from a buffer on. Once it has cancelled itself it ends at its next `recv`.
unfoldable pub listen : Str → List Received → List Event
unfolding scan
listen buffer [] = []
listen buffer (closed ∷ rs) = server_closed ∷ []
listen buffer (failed ∷ rs) = recv_failed ∷ []
listen buffer (bytes s ∷ rs) =
    let (es, left) = scan none [] (buffer ++ s) in
    let rest = listen left rs in if any_ends es then es else es ++ rest
