-- ===== src/Shop/Client/Listener/Lines.antt =====
-- The lines that the listener of client.c makes of the bytes it receives.
use system_related_in_c.Base.{
  ℕ, ◌≡◌, ◌≢◌, refl, ap, ◌∙◌, inl, inr, false, Bool-cases, none, some, List, [], ◌∷◌, ◌++◌, map,
  append_assoc, append-nil, All, ==_ne, ◌==◌, if◌then◌else◌,
}
use system_related_in_c.Grades.Text.{Str, codes, newline, same, until_nul}
use system_related_in_c.Shop.Client.Listener.{Event, response, heard, scan, any_ends}

-- The complete lines of a text, and what is left behind the last newline; `line` comes before it.
abbrev split_more : ℕ → Str → List Str × Str → List Str × Str → List Str × Str
split_more c line (ls, left) more = if c == newline then (line ∷ ls, left) else more

unfoldable pub split_lines : Str → Str → List Str × Str
split_lines line [] = ([], line)
split_lines line (c ∷ s) =
    let done = split_lines [] s in
    let more = split_lines (line ++ c ∷ []) s in split_more c line done more

-- A line that is neither an answer to an order nor the end of the visit.
abbrev pub Plain : Str → Type 0
Plain l =
    (same (until_nul l) (codes "OK") ≡ false)
    × (same (until_nul l) (codes "ALL ORDERS SERVED") ≡ false)
    × (same (until_nul l) (codes "ALL ORDERS CANCEL") ≡ false)

abbrev pub responses : List Str → List Event
responses ls = map (λ l. response (until_nul l)) ls

heard-Plain : (f line : Str) → Plain f → heard (until_nul f) line ≡ response line ∷ []
heard-Plain f line p = rw (p.0, p.1, p.2)

-- Behind a plain first line, every line is a response, whatever it says.
scan-behind :
    (f line s : Str)
    → Plain f
    → scan (some f) line s ≡ (responses (split_lines line s).0, (split_lines line s).1)
unfolding scan split_lines
scan-behind f line [] p = refl
scan-behind f line (c ∷ s) p = elim (Bool-cases (c == newline)) [
  | inl e ↦ rw (e, heard-Plain f (until_nul line) p, scan-behind f [] s p)
  | inr e ↦ rw (e, scan-behind f (line ++ c ∷ []) s p)
]

abbrev FirstPlain : List Str → Type 0
FirstPlain [] = Unit
FirstPlain (l ∷ ls) = Plain l

scan-plain :
    (line s : Str)
    → FirstPlain (split_lines line s).0
    → scan none line s ≡ (responses (split_lines line s).0, (split_lines line s).1)
unfolding scan split_lines
scan-plain line [] p = refl
scan-plain line (c ∷ s) p = elim (Bool-cases (c == newline)) [
  | inl e ↦
      let q = rw e at p in rw (e, heard-Plain line (until_nul line) q, scan-behind line [] s q)
  | inr e ↦ let q = rw e at p in rw (e, scan-plain (line ++ c ∷ []) s q)
]

-- What was kept of a line is read again.
scan-again :
    (line b s : Str) → All (λ c. c ≢ newline) b → scan none line (b ++ s) ≡ scan none (line ++ b) s
unfolding scan
scan-again line [] s h = rw (append-nil line)
scan-again line (c ∷ b) s h =
    rw (==_ne h.0, scan-again (line ++ c ∷ []) b s h.1, append_assoc line (c ∷ []) b)

responses-never-end : (ls : List Str) → any_ends (responses ls) ≡ false
responses-never-end [] = refl
responses-never-end (l ∷ ls) = responses-never-end ls

abbrev pub joined : List Str → Str
joined [] = []
joined (c ∷ cs) = c ++ joined cs

-- If the first line in the buffer is none of OK and the two that end the visit, then nothing
-- behind it in the buffer ends the visit.
pub end_behind_a_line :
    (first rest : Str)
    → All (λ c. c ≢ newline) first
    → Plain first
    → any_ends (scan none [] (first ++ newline ∷ rest)).0 ≡ false
unfolding split_lines
end_behind_a_line first rest kept plain =
    let got = scan-again [] first (newline ∷ rest) kept ∙ scan-plain first (newline ∷ rest) plain in
    ap (λ r. any_ends r.0) got ∙ responses-never-end (split_lines first (newline ∷ rest)).0
