-- ===== src/Storage/Wal/Append.antt =====
-- storage/wal/walfile.cpp: what a log holds after batches, and what it reads back.
use memseries.Base.{
  ℕ, zero, suc, ◌+◌, ◌-◌, ◌^◌, ◌<◌, ◌≤◌, ◌≡◌, arith, tests, refl, ap, sym, ◌∙◌, Bool, Bool-cases,
  false, ltb, ◌==◌, not, if◌then◌else◌,
}
use memseries.Base.{
  Option, some, ◌>>=◌, ensure-true, List, [], ◌∷◌, ◌++◌, length, take, length-take, length-append,
  min, inl, inr, ◌⊎◌,
}
use mathlib.Core.List.{append_assoc, append-nil}
use memseries.Meas.{Meas}
use memseries.Storage.Wal.{
  WalFile, Status, status_of, wal_file_limit, create_file, content, content_of, note_all, write_all,
  write_size, append_range, read_all,
}

take-all : (n : ℕ) (ms : List Meas) → length ms ≤ n → take n ms ≡ ms
take-all zero [] h = refl
take-all zero (m ∷ ms) h = absurd (omega arith)
take-all (suc n) [] h = refl
take-all (suc n) (m ∷ ms) h = ap (λ r. m ∷ r) (take-all n ms (omega arith))

take-append :
    (n k : ℕ) (xs ys : List Meas) → n ≡ length xs + k → take n (xs ++ ys) ≡ xs ++ take k ys
take-append n k [] ys e = ap (λ j. take j ys) (omega (arith, e))
take-append zero k (x ∷ xs) ys e = absurd (omega arith)
take-append (suc n) k (x ∷ xs) ys e = ap (λ r. x ∷ r) (take-append n k xs ys (omega arith))

take-min : (size n : ℕ) (ms : List Meas) → size ≡ min (length ms) n → take size ms ≡ take n ms
take-min size n [] e =
    ap (λ k. take k []) {x = size} {y = 0} (omega arith) ∙ sym (take-all n [] (omega arith))
take-min zero zero (m ∷ ms) e = refl
take-min zero (suc n) (m ∷ ms) e = absurd (omega arith)
take-min (suc size) zero (m ∷ ms) e = absurd (omega arith)
take-min (suc size) (suc n) (m ∷ ms) e = ap (λ r. m ∷ r) (take-min size n ms (omega arith))

take-take : (n : ℕ) (xs ys : List Meas) → take n (take n xs ++ ys) ≡ take n (xs ++ ys)
take-take zero xs ys = refl
take-take (suc n) [] ys = refl
take-take (suc n) (x ∷ xs) ys = ap (λ r. x ∷ r) (take-take n xs ys)

-- The log is open to append, counts its measurements, and stays within the limit.
pub record IsLog (limit : ℕ) (w : WalFile) : Type 0 where
  pub to_append : w.is_readonly ≡ false
  pub counted : w.writed ≡ length (content w)
  pub within : w.writed ≤ limit

-- What the loop over the written measurements leaves.
note_all-keeps :
    (ms : List Meas) (w : WalFile)
    → ((note_all ms w).is_readonly ≡ w.is_readonly) × ((note_all ms w).writed ≡ w.writed)
unfolding note_all
note_all-keeps [] w = (refl, refl)
note_all-keeps (m ∷ ms) w = note_all-keeps ms _

write_all-IsLog :
    (limit : ℕ) (ms : List Meas) (w : WalFile)
    → limit < 2 ^ 64
    → IsLog limit w
    → w.writed + length ms ≤ limit
    → IsLog limit (write_all ms w)
unfolding write_all
write_all-IsLog limit ms w small l fits =
    let counted = l.counted in
    record {
      to_append = (note_all-keeps ms w).0 ∙ l.to_append;
      counted = omega (arith, counted, length-append (content w) ms);
      within = omega arith;
    }

-- The status of a batch by the number of the measurements that it writes.
abbrev pub status_for : ℕ → List Meas → Status
status_for size ms =
    if size == 0
    then record { writed = some 0; ignored = length ms; error = wal_file_limit }
    else status_of size

write_size_lem :
    (limit sz : ℕ) (w : WalFile)
    → w.writed ≤ limit
    → sz + w.writed < 2 ^ 64
    → ((sz + w.writed ≤ limit) × (write_size limit sz w ≡ sz))
      ⊎ ((limit < sz + w.writed) × (write_size limit sz w ≡ limit - w.writed))
unfolding write_size
write_size_lem limit sz w within small = elim (Bool-cases (ltb limit (sz + w.writed))) [
  | inl h ↦ let more : limit < sz + w.writed = grind tests in inr (more, ground arith)
  | inr h ↦ let fits : sz + w.writed ≤ limit = grind tests in inl (fits, ground arith)
]

-- The log after a batch that writes `size` measurements.
after_range : ℕ → List Meas → WalFile → WalFile
after_range size ms w =
    if size == 0 then record w { file = some (content w) } else write_all (take size ms) w

append_range-after :
    (checks : Bool) (limit size : ℕ) (ms : List Meas) (w : WalFile)
    → w.is_readonly ≡ false
    → write_size limit (length ms) w ≡ size
    → size ≤ length ms
    → append_range checks limit ms w ≡ some (status_for size ms, after_range size ms w)
unfolding append_range after_range
append_range-after checks limit size ms w open_for e h =
    let there : ltb (length ms) size ≡ false = ground arith in
    let passes = ensure-true checks (not w.is_readonly) (ap not open_for) in
    elim (Bool-cases (size == 0)) [
      | inl z ↦ rw (passes, e, z) refl
      | inr z ↦ rw (passes, e, z, there) refl
    ]

append-nothing : (xs : List Meas) (size : ℕ) (ms : List Meas) → size ≡ 0 → xs ++ take size ms ≡ xs
append-nothing xs size ms e = ap (λ n. xs ++ take n ms) e ∙ append-nil xs

after_range_lem :
    (limit size : ℕ) (ms : List Meas) (w : WalFile)
    → limit < 2 ^ 64
    → IsLog limit w
    → w.writed + size ≤ limit
    → size ≤ length ms
    → IsLog limit (after_range size ms w)
      × ((after_range size ms w).file ≡ some (content w ++ take size ms))
unfolding after_range write_all
after_range_lem limit size ms w small l fits there = elim (Bool-cases (size == 0)) [
  | inl z ↦
      let none_more : size ≡ 0 = grind tests in
      let log : IsLog limit (record w { file = some (content w) }) = record {
        to_append = l.to_append;
        counted = l.counted;
        within = l.within;
      } in
      rw z (log, ap some (sym (append-nothing (content w) size ms none_more)))
  | inr z ↦
      rw z
        (write_all-IsLog limit (take size ms) w small l (omega (arith, length-take size ms)), refl)
]

-- The part of a batch that finds room is the part that the limit leaves.
batch-take :
    (limit size : ℕ) (ms : List Meas) (w : WalFile)
    → IsLog limit w
    → size ≡ min (length ms) (limit - w.writed)
    → content w ++ take size ms ≡ take limit (content w ++ ms)
batch-take limit size ms w l e =
    let counted = l.counted in
    let within = l.within in
    ap (λ r. content w ++ r) (take-min size (limit - w.writed) ms e)
    ∙ sym (take-append limit (limit - w.writed) (content w) ms (omega arith))

pub append_range-take :
    (checks : Bool) (limit : ℕ) (ms : List Meas) (w : WalFile)
    → limit + length ms < 2 ^ 64
    → IsLog limit w
    → (w' : WalFile) × (append_range checks limit ms w
        ≡ some (status_for (min (length ms) (limit - w.writed)) ms, w'))
      × IsLog limit w'
      × (w'.file ≡ some (take limit (content w ++ ms)))
append_range-take checks limit ms w small l =
    let within = l.within in
    let size = min (length ms) (limit - w.writed) in
    let same : write_size limit (length ms) w ≡ min (length ms) (limit - w.writed) =
      elim (write_size_lem limit (length ms) w within (omega arith)) [
        | inl (fits, e) ↦ e ∙ omega arith
        | inr (more, e) ↦ e ∙ omega arith
      ] in
    let (log, held) = after_range_lem limit size ms w (omega arith) l (omega arith) (omega arith) in
    (
      after_range size ms w,
      append_range-after checks limit size ms w l.to_append same (omega arith),
      log,
      (held ∙ ap some (batch-take limit size ms w l refl)),
    )

-- One batch after the other.
unfoldable pub append_batches : Bool → ℕ → List (List Meas) → WalFile → Option WalFile
append_batches checks limit [] w = some w
append_batches checks limit (ms ∷ batches) w = do
  (status, w') ← append_range checks limit ms w
  append_batches checks limit batches w'

abbrev pub joined : List (List Meas) → List Meas
joined [] = []
joined (ms ∷ batches) = ms ++ joined batches

append_batches-take :
    (checks : Bool) (limit : ℕ) (batches : List (List Meas)) (w : WalFile) (xs : List Meas)
    → limit + length (joined batches) < 2 ^ 64
    → IsLog limit w
    → w.file ≡ some (take limit xs)
    → (w' : WalFile) × (append_batches checks limit batches w ≡ some w')
      × IsLog limit w'
      × (w'.file ≡ some (take limit (xs ++ joined batches)))
unfolding append_batches
append_batches-take checks limit [] w xs small l e =
    (w, refl, l, (e ∙ ap (λ r. some (take limit r)) (sym (append-nil xs))))
append_batches-take checks limit (ms ∷ batches) w xs small l e =
    let sum = length-append ms (joined batches) in
    let (w₁, step, l₁, held) = append_range-take checks limit ms w (omega arith) l in
    let next : w₁.file ≡ some (take limit (xs ++ ms)) =
      held ∙ ap some (ap (λ r. take limit (content_of r ++ ms)) e ∙ take-take limit xs ms) in
    let (w₂, run, l₂, last) =
      append_batches-take checks limit batches w₁ (xs ++ ms) (omega arith) l₁ next in
    (
      w₂,
      rw step run,
      l₂,
      (last ∙ ap (λ r. some (take limit r)) (append_assoc xs ms (joined batches))),
    )

create_file-IsLog : (limit : ℕ) → IsLog limit create_file
unfolding create_file
create_file-IsLog limit = record { to_append = refl; counted = refl; within = omega arith }

read_all-IsLog :
    (limit : ℕ) (w : WalFile) (xs : List Meas)
    → IsLog limit w
    → w.file ≡ some xs
    → read_all w ≡ some xs
unfolding read_all
read_all-IsLog limit w xs l e =
    let exact : w.writed ≡ length xs = l.counted ∙ ap (λ r. length (content_of r)) e in
    let enough : ltb (length xs) w.writed ≡ false = ground arith in
    rw (e, enough) (ap some (take-all w.writed xs (omega arith)))

-- For a new log and one batch or more, with the limit and the number of their measurements
-- together below 2 ^ 64, all batches are written without an exception, the log stays within the
-- limit and counts what it holds, and reading it gives the measurements of the batches in their
-- order, cut off at the limit.
pub read_all-append_batches :
    (checks : Bool) (limit : ℕ) (ms : List Meas) (batches : List (List Meas))
    → limit + length (joined (ms ∷ batches)) < 2 ^ 64
    → (w : WalFile) × (append_batches checks limit (ms ∷ batches) create_file ≡ some w)
      × IsLog limit w
      × (read_all w ≡ some (take limit (joined (ms ∷ batches))))
unfolding append_batches create_file
read_all-append_batches checks limit ms batches small =
    let sum = length-append ms (joined batches) in
    let (w₁, step, l₁, held) =
      append_range-take checks limit ms create_file (omega arith) (create_file-IsLog limit) in
    let (w₂, run, l₂, last) =
      append_batches-take checks limit batches w₁ ms (omega arith) l₁ held in
    (w₂, rw step run, l₂, read_all-IsLog limit w₂ _ l₂ last)
