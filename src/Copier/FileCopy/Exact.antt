-- ===== src/Copier/FileCopy/Exact.antt =====
-- What `fileCopy` leaves in the target.
use system_related_in_c.Base.{
  ℕ, zero, suc, ◌+◌, ◌-◌, ◌≤◌, ◌<◌, ◌≡◌, ◌≢◌, refl, sym, ap, ◌∙◌, Bool, true, Option, some, List,
  [], ◌∷◌, ◌++◌, arith, append_assoc, append-nil, length, length-append, length-take-le, ==_refl,
  take, drop, take-all, leb, ltb, ◌&&◌, inl, inr, Bool-cases, ==_ne, if◌then◌else◌, dec_le,
}
use system_related_in_c.Copier.FileCopy.{
  Disk, Copied, silent, short_write, content, put_file, chunk_size, brought, read_chunk, copy_loop,
  copy_to, file_copy,
}

module _ {A : Type 0} where
  take-drop : (n : ℕ) (xs : List A) → take n xs ++ drop n xs ≡ xs
  take-drop zero xs = refl
  take-drop (suc n) [] = refl
  take-drop (suc n) (x ∷ xs) = ap (λ r. x ∷ r) (take-drop n xs)

  drop-append : (xs ys : List A) → drop (length xs) (xs ++ ys) ≡ ys
  drop-append [] ys = refl
  drop-append (x ∷ xs) ys = drop-append xs ys

  length-drop : (n : ℕ) (xs : List A) → length (drop n xs) ≡ length xs - n
  length-drop zero xs = omega arith
  length-drop (suc n) [] = omega arith
  length-drop (suc n) (x ∷ xs) = omega (arith, length-drop n xs)

  length-take : (n : ℕ) (xs : List A) → length (take n xs) + length (drop n xs) ≡ length xs
  length-take n xs =
      omega (arith, length-append (take n xs) (drop n xs), ap length (take-drop n xs))

take-append_over :
    (n : ℕ) (xs ys : List ℕ) → length xs ≤ n → take n (xs ++ ys) ≡ xs ++ take (n - length xs) ys
take-append_over n [] ys le = ap (λ m. take m ys) (omega arith)
take-append_over zero (x ∷ xs) ys le = absurd (omega arith)
take-append_over (suc n) (x ∷ xs) ys le =
    ap (λ r. x ∷ r)
      (take-append_over n xs ys (omega arith) ∙ ap (λ m. xs ++ take m ys) (omega arith))

take-nil : (n : ℕ) → take {A = ℕ} n [] ≡ []
take-nil zero = refl
take-nil (suc n) = refl

put_file_self : (p : ℕ) (c : List ℕ) (files : ℕ → Option (List ℕ)) → put_file p c files p ≡ some c
put_file_self p c files = ground arith

put_file_ne :
    (p q : ℕ) (c : List ℕ) (files : ℕ → Option (List ℕ)) → q ≢ p → put_file p c files q ≡ files q
put_file_ne p q c files ne = ground arith

-- The disk when these bytes are at the end of the target.
abbrev written : ℕ → List ℕ → Disk → Disk
written target bytes d = record d {
  files = put_file target (content (d.files target) ++ bytes) d.files;
  space = d.space - length bytes;
}

module _ (k source target offset : ℕ) (d : Disk) where
  copy_loop-end :
      brought (read_chunk source offset d) ≡ [] → copy_loop (suc k) source target offset d ≡ (silent, d)
  unfolding copy_loop
  copy_loop-end e = rw e

  module _ (bytes : List ℕ) (e : brought (read_chunk source offset d) ≡ bytes) (more : length bytes ≢ 0) where
    copy_loop-more :
        length bytes ≤ d.space
        → copy_loop (suc k) source target offset d
          ≡ copy_loop k source target (offset + length bytes) (written target bytes d)
    unfolding copy_loop
    copy_loop-more room = rw (e, ==_ne more, take-all d.space bytes room, ==_refl)

    copy_loop-full :
        d.space < length bytes
        → copy_loop (suc k) source target offset d
          ≡ (short_write, written target (take d.space bytes) d)
    unfolding copy_loop
    copy_loop-full full = rw (e, ==_ne more, ==_ne (length-take_ne full))
      where
        length-take_ne : d.space < length bytes → length (take d.space bytes) ≢ length bytes
        length-take_ne full h = omega (arith, length-take-le d.space bytes)

length-take_cons : (n : ℕ) (x : ℕ) (l : List ℕ) → length (take (suc n) (x ∷ l)) ≢ 0
length-take_cons n x l e = omega arith

take-take : (m n : ℕ) (xs : List ℕ) → m ≤ n → take m (take n xs) ≡ take m xs
take-take zero n xs le = refl
take-take (suc m) zero xs le = absurd (omega arith)
take-take (suc m) (suc n) [] le = refl
take-take (suc m) (suc n) (x ∷ xs) le = ap (λ r. x ∷ r) (take-take m n xs (omega arith))

-- How the copy of so many bytes ends.
abbrev pub ending : ℕ → ℕ → Copied
ending bytes space = if leb bytes space then silent else short_write

ending-less : (c r n s : ℕ) → c + r ≡ n → c ≤ s → ending r (s - c) ≡ ending n s
ending-less c r n s e le = ground arith

ending-full : (c r n s : ℕ) → c + r ≡ n → s < c → short_write ≡ ending n s
ending-full c r n s e lt = ground arith

-- What the target holds, what else has changed, and how the call ended.
abbrev pub Leaves : ℕ → List ℕ → Copied → Disk → Copied × Disk → Type 0
Leaves target bytes how d r =
    (r.0 ≡ how) × (r.1.files target ≡ some bytes) × ((p : ℕ) → p ≢ target → r.1.files p ≡ d.files p)

-- Of what is behind the first bytes, `read` brings no more than it may.
read_chunk-brings :
    (source offset : ℕ) (d : Disk)
    → brought (read_chunk source offset d)
      ≡ take chunk_size (take (d.readable source - offset) (drop offset (content (d.files source))))
read_chunk-brings source offset d = elim (Bool-cases fails) [
  | inl e ↦ rw e (sym (ap (λ n. take chunk_size (take n left)) (nothing e) ∙ take-nil chunk_size))
  | inr e ↦ rw e
]
  where
    left : List ℕ
    left = drop offset (content (d.files source))

    fails : Bool
    fails = leb (d.readable source) offset && ltb 0 (length left)

    nothing : fails ≡ true → d.readable source - offset ≡ 0
    nothing e = ground arith

read_chunk-at :
    (source : ℕ) (read left lost : List ℕ) (d : Disk)
    → d.files source ≡ some (read ++ (left ++ lost))
    → take (d.readable source - length read) (left ++ lost) ≡ left
    → brought (read_chunk source (length read) d) ≡ take chunk_size left
read_chunk-at source read left lost d src stops =
    read_chunk-brings source (length read) d
    ∙ ap (λ f. take chunk_size (take (d.readable source - length read) (drop (length read) (content f)))) src
    ∙ ap (λ l. take chunk_size (take (d.readable source - length read) l)) (drop-append read (left ++ lost))
    ∙ ap (take chunk_size) stops

-- Behind a chunk, `read` stops at the same byte.
stops-behind :
    (n : ℕ) (chunk rest lost : List ℕ)
    → take n (chunk ++ (rest ++ lost)) ≡ chunk ++ rest
    → take (n - length chunk) (rest ++ lost) ≡ rest
stops-behind n chunk rest lost e =
    sym (drop-append chunk (take (n - length chunk) (rest ++ lost)))
    ∙ ap (drop (length chunk)) (sym (take-append_over n chunk (rest ++ lost) (le)) ∙ e)
    ∙ drop-append chunk rest
  where
    le : length chunk ≤ n
    le = omega (
      arith,
      ap length e,
      length-append chunk rest,
      length-take-le n (chunk ++ (rest ++ lost)),
    )

-- With the first bytes in the target, the loop brings the others, as far as there is space.
copy_loop-Leaves :
    (k source target : ℕ) (read left lost : List ℕ) (d : Disk)
    → target ≢ source
    → d.files source ≡ some (read ++ (left ++ lost))
    → take (d.readable source - length read) (left ++ lost) ≡ left
    → d.files target ≡ some read
    → length left < k
    → Leaves target
        (read ++ take d.space left)
        (ending (length left) d.space)
        d
        (copy_loop k source target (length read) d)
copy_loop-Leaves zero source target read left lost d ne src stops tgt fuel = absurd (omega arith)
copy_loop-Leaves (suc k) source target read [] lost d ne src stops tgt fuel =
    rw
      (
        copy_loop-end k source target (length read) d (read_chunk-at source read [] lost d src stops ∙ take-nil chunk_size),
        take-nil,
        append-nil,
      )
      (ground arith, tgt, λ p pn. refl)
copy_loop-Leaves (suc k) source target read (x ∷ l) lost d ne src stops tgt fuel =
    elim (dec_le (length chunk) d.space) [
      | yes room ↦ going room (
          copy_loop-Leaves k source target (read ++ chunk) rest lost (written target chunk d) ne
            (src-now room) stops-now (tgt-now room) (omega (arith, more, sizes)))
      | no full ↦ rw (copy_loop-full k source target (length read) d chunk at more (omega arith)) (
        ending-full (length chunk) (length rest) (length (x ∷ l)) d.space sizes (omega arith),
        put_file_self target _ d.files
            ∙ ap (λ c. some (content c ++ take d.space chunk)) tgt
            ∙ ap (λ c. some (read ++ c))
                (take-take d.space chunk_size (x ∷ l)
                  (omega (arith, length-take-le chunk_size (x ∷ l)))),
        λ p pn. put_file_ne target p _ d.files pn,
      )
    ]
  where
    chunk : List ℕ
    chunk = take chunk_size (x ∷ l)

    rest : List ℕ
    rest = drop chunk_size (x ∷ l)

    more : length chunk ≢ 0
    more = length-take_cons 4095 x l

    at : brought (read_chunk source (length read) d) ≡ chunk
    at = read_chunk-at source read (x ∷ l) lost d src stops

    sizes : length chunk + length rest ≡ length (x ∷ l)
    sizes = length-take chunk_size (x ∷ l)

    src-now :
        length chunk ≤ d.space
        → (written target chunk d).files source ≡ some (read ++ chunk ++ (rest ++ lost))
    src-now room =
        put_file_ne target source _ d.files (λ e. ne (sym e))
        ∙ src
        ∙ ap (λ c. some (read ++ (c ++ lost))) (sym (take-drop chunk_size (x ∷ l)))
        ∙ ap (λ c. some (read ++ c)) (append_assoc chunk rest lost)
        ∙ ap some (sym (append_assoc read chunk (rest ++ lost)))

    stops-now : take (d.readable source - length (read ++ chunk)) (rest ++ lost) ≡ rest
    stops-now =
        ap (λ n. take n (rest ++ lost)) (omega (arith, length-append read chunk))
        ∙ stops-behind (d.readable source - length read) chunk rest lost (
            ap (take (d.readable source - length read)) (sym (append_assoc chunk rest lost))
            ∙ ap (λ c. take (d.readable source - length read) (c ++ lost)) (take-drop chunk_size (x ∷ l))
            ∙ stops
            ∙ sym (take-drop chunk_size (x ∷ l)))

    tgt-now : length chunk ≤ d.space → (written target chunk d).files target ≡ some (read ++ chunk)
    tgt-now room = put_file_self target _ d.files ∙ ap (λ c. some (content c ++ chunk)) tgt

    going :
        length chunk ≤ d.space
        → Leaves target
            (read ++ chunk ++ take (d.space - length chunk) rest)
            (ending (length rest) (d.space - length chunk))
            (written target chunk d)
            (copy_loop k source target (length (read ++ chunk)) (written target chunk d))
        → Leaves target
            (read ++ take d.space (x ∷ l))
            (ending (length (x ∷ l)) d.space)
            d
            (copy_loop (suc k) source target (length read) d)
    going room h =
        rw
          (
            copy_loop-more k source target (length read) d chunk at more room,
            sym (length-append read chunk),
          )
          (
            h.0 ∙ ending-less (length chunk) (length rest) (length (x ∷ l)) d.space sizes room,
            h.1
                ∙ ap some (
                    append_assoc read chunk _
                    ∙ ap (λ c. read ++ c)
                        (sym (take-append_over d.space chunk rest room)
                          ∙ ap (take d.space) (take-drop chunk_size (x ∷ l)))),
            λ p pn. h.2 p pn ∙ put_file_ne target p _ d.files pn,
          )

abbrev emptied : ℕ → Disk → Disk
emptied target d = record d { files = put_file target [] d.files }

file_copy-copy_to :
    (may_open : ℕ → Bool) (source_file target_file : ℕ) (d : Disk)
    → let source = d.file_at source_file in
      file_copy may_open source_file target_file d
      ≡ copy_to may_open source (d.file_at target_file) d (d.files source)
unfolding file_copy
file_copy-copy_to may_open source_file target_file d = refl

copy_to-copy_loop :
    (may_open : ℕ → Bool) (source target : ℕ) (bytes : List ℕ) (d : Disk)
    → may_open target ≡ true
    → copy_to may_open source target d (some bytes)
      ≡ copy_loop (length bytes + 1) source target 0 (emptied target d)
unfolding copy_to
copy_to-copy_loop may_open source target bytes d may = rw may

file_copy-copy_loop :
    (may_open : ℕ → Bool) (source_file target_file : ℕ) (bytes : List ℕ) (d : Disk)
    → d.files (d.file_at source_file) ≡ some bytes
    → may_open (d.file_at target_file) ≡ true
    → file_copy may_open source_file target_file d
      ≡ copy_loop (suc (length bytes)) (d.file_at source_file) (d.file_at target_file) 0
        (emptied (d.file_at target_file) d)
file_copy-copy_loop may_open source_file target_file bytes d src may =
    let source = d.file_at source_file in
    let target = d.file_at target_file in
    file_copy-copy_to may_open source_file target_file d
    ∙ ap (copy_to may_open source target d) src
    ∙ copy_to-copy_loop may_open source target bytes d may
    ∙ ap (λ k. copy_loop k source target 0 (emptied target d)) (omega arith)

pub file_copy-Leaves :
    (may_open : ℕ → Bool) (source_file target_file : ℕ) (bytes : List ℕ) (d : Disk)
    → d.files (d.file_at source_file) ≡ some bytes
    → may_open (d.file_at target_file) ≡ true
    → d.file_at target_file ≢ d.file_at source_file
    → let read = take (d.readable (d.file_at source_file)) bytes in
      Leaves (d.file_at target_file)
        (take d.space read)
        (ending (length read) d.space)
        d
        (file_copy may_open source_file target_file d)
file_copy-Leaves may_open source_file target_file bytes d src may ne =
    let source = d.file_at source_file in
    let target = d.file_at target_file in
    let n = d.readable source in
    let all = take-drop n bytes in
    let (how, holds, same) =
      copy_loop-Leaves (suc (length bytes)) source target [] (take n bytes) (drop n bytes)
        (emptied target d) ne
        (put_file_ne target source [] d.files (λ e. ne (sym e)) ∙ src ∙ ap some (sym all))
        (ap (take (n - 0)) all ∙ ap (λ k. take k bytes) (omega arith))
        (put_file_self target [] d.files) (omega (arith, length-take n bytes)) in
    rw (file_copy-copy_loop may_open source_file target_file bytes d src may)
      (how, holds, λ p pn. same p pn ∙ put_file_ne target p [] d.files pn)

-- c
pub file_copy-same :
    (may_open : ℕ → Bool) (source_file target_file : ℕ) (bytes : List ℕ) (d : Disk)
    → d.file_at target_file ≡ d.file_at source_file
    → d.files (d.file_at source_file) ≡ some bytes
    → may_open (d.file_at source_file) ≡ true
    → ((file_copy may_open source_file target_file d).0 ≡ silent)
      × ((file_copy may_open source_file target_file d).1.files (d.file_at source_file) ≡ some [])
file_copy-same may_open source_file target_file bytes d one src may =
    rw
      (
        file_copy-copy_loop may_open source_file target_file bytes d src (ap may_open one ∙ may),
        one,
        ends,
      )
      (refl, put_file_self source [] d.files)
  where
    source : ℕ
    source = d.file_at source_file

    nothing : brought (read_chunk source 0 (emptied source d)) ≡ []
    nothing =
        read_chunk-at source [] [] [] (emptied source d) (put_file_self source [] d.files)
          (take-nil (d.readable source - 0))
        ∙ take-nil chunk_size

    ends :
        copy_loop (suc (length bytes)) source source 0 (emptied source d)
        ≡ (silent, emptied source d)
    ends = copy_loop-end (length bytes) source source 0 (emptied source d) nothing
