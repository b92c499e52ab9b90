-- ===== src/Storage/Wal/Filter.antt =====
-- storage/wal/walfile.cpp: a log that holds too much, and what the filter of the ids knows.
use memseries.Base.{
  ℕ, suc, ◌+◌, ◌-◌, ◌%◌, ◌^◌, ◌<◌, ◌≡◌, arith, tests, refl, ap, sym, subst, Bool, Bool-cases, true,
  false, ltb, ◌==◌, not, if◌then◌else◌,
}
use memseries.Base.{
  none, some, ensure, ensure-true, bind_some, List, [], ◌∷◌, ◌++◌, length, take, length-append, inl,
  inr, ◌⊎◌,
}
use memseries.Base.Bits.{bit_or-lt}
use mathlib.Core.List.{append_assoc}
use memseries.Meas.{Meas}
use memseries.Storage.Bloom.{jenkins_one_at_a_time_hash, bloom_add, bloom_check}
use memseries.Storage.Bloom.Laws.{bloom_check-add, bloom_check-add_other}
use memseries.Storage.Wal.{
  WalFile, Status, status_of, create_file, content, content_of, note_all, write_all, append,
  write_size, append_range, read_all,
}
use memseries.Storage.Wal.Queries.{bloom_of, id_bloom}
use memseries.Storage.Wal.Append.{IsLog}

some_parts : (x y : Status × WalFile) → some x ≡ some y → x ≡ y
some_parts x y e = cc

-- When a log that counts its measurements stands at its limit, append of a further measurement
-- still writes it, and then append of any batch, of a length that fits 64 bits together with the
-- limit and more, reads behind the end of the batch.
pub append-overflow :
    (checks : Bool) (limit : ℕ) (value : Meas) (ms : List Meas) (w : WalFile)
    → suc (limit + length ms) < 2 ^ 64
    → IsLog limit w
    → w.writed ≡ limit
    → (w' : WalFile) × (append checks limit value w ≡ some (status_of 1, w'))
      × (length (content w') ≡ suc limit)
      × (append_range checks limit ms w' ≡ none)
unfolding append append_range write_all write_size note_all
append-overflow checks limit value ms w small l full =
    let passes = ensure-true checks (not w.is_readonly) (ap not l.to_append) in
    let room : ltb limit w.writed ≡ false = ground arith in
    let over : ltb limit ((length ms + (w.writed + 1) % 2 ^ 64) % 2 ^ 64) ≡ true = ground arith in
    let size : (limit + 2 ^ 64 - (w.writed + 1) % 2 ^ 64) % 2 ^ 64 ≡ 2 ^ 64 - 1 =
      omega (arith, full) in
    let beyond : ltb (length ms) (2 ^ 64 - 1) ≡ true = ground arith in
    (
      write_all (value ∷ []) w,
      rw (passes, room) refl,
      omega (arith, l.counted, length-append (content w) (value ∷ [])),
      rw (passes, over, size, beyond) refl,
    )

hash-lt : (val : ℕ) → jenkins_one_at_a_time_hash 4 val < 2 ^ 32
unfolding jenkins_one_at_a_time_hash
hash-lt val = omega arith

-- All ids of a list pass the filter.
abbrev pub AllChecked : ℕ → List Meas → Type 0
AllChecked b [] = Unit
AllChecked b (m ∷ ms) = (bloom_check b m.id ≡ true) × AllChecked b ms

-- A filter of 32 bits loses nothing.
bloom_add-fits : (b val : ℕ) → b < 2 ^ 32 → bloom_add b val % 2 ^ 32 ≡ bloom_add b val
unfolding bloom_add
bloom_add-fits b val h =
    omega (arith, bit_or-lt 32 b (jenkins_one_at_a_time_hash 4 val) h (hash-lt val))

AllChecked-add : (b val : ℕ) (ms : List Meas) → AllChecked b ms → AllChecked (bloom_add b val) ms
AllChecked-add b val [] k = tt
AllChecked-add b val (m ∷ ms) (here, k) =
    (bloom_check-add_other b val m.id here, AllChecked-add b val ms k)

AllChecked-append :
    (b : ℕ) (xs ys : List Meas) → AllChecked b xs → AllChecked b ys → AllChecked b (xs ++ ys)
AllChecked-append b [] ys k n = n
AllChecked-append b (x ∷ xs) ys (here, k) n = (here, AllChecked-append b xs ys k n)

-- What the filter of a list knows, and that it forgets nothing.
bloom_of-AllChecked :
    (ms xs : List Meas) (b : ℕ)
    → b < 2 ^ 32
    → AllChecked b xs
    → (bloom_of ms b < 2 ^ 32) × AllChecked (bloom_of ms b) (xs ++ ms)
unfolding bloom_of
bloom_of-AllChecked [] xs b h k = (h, AllChecked-append b xs [] k tt)
bloom_of-AllChecked (m ∷ ms) xs b h k =
    let fits = bloom_add-fits b m.id h in
    let (small, known) =
      bloom_of-AllChecked ms (xs ++ (m ∷ [])) (bloom_add b m.id % 2 ^ 32) (omega arith) (
        subst (λ c. AllChecked c (xs ++ (m ∷ []))) (sym fits)
          (AllChecked-append (bloom_add b m.id) xs (m ∷ []) (AllChecked-add b m.id xs k)
            (bloom_check-add b m.id, tt))) in
    (small, subst (AllChecked _) (append_assoc xs (m ∷ []) ms) known)

id_bloom-note_all :
    (ms : List Meas) (w : WalFile) → (note_all ms w).id_bloom ≡ bloom_of ms w.id_bloom
unfolding note_all bloom_of
id_bloom-note_all [] w = refl
id_bloom-note_all (m ∷ ms) w = id_bloom-note_all ms _

-- The filter of a log is of 32 bits, and knows all that the log holds.
pub record IsFiltered (w : WalFile) : Type 0 where
  pub bloom_fits : w.id_bloom < 2 ^ 32
  pub knows : AllChecked w.id_bloom (content w)

write_all-IsFiltered : (ms : List Meas) (w : WalFile) → IsFiltered w → IsFiltered (write_all ms w)
unfolding write_all
write_all-IsFiltered ms w f =
    let (small, known) = bloom_of-AllChecked ms (content w) w.id_bloom f.bloom_fits f.knows in
    let e = sym (id_bloom-note_all ms w) in
    record {
      bloom_fits = subst (λ b. b < 2 ^ 32) e small;
      knows = subst (λ b. AllChecked b (content w ++ ms)) e known;
    }

create_file-IsFiltered : IsFiltered create_file
unfolding create_file
create_file-IsFiltered = record { bloom_fits = omega arith; knows = tt }

after_checks :
    (stop over : Bool) (a b r : Status × WalFile)
    → IsFiltered a.1
    → IsFiltered b.1
    → (if stop then some a else if over then none else some b) ≡ some r
    → IsFiltered r.1
after_checks true over a b r f g e = subst (λ x. IsFiltered x.1) (some_parts a r e) f
after_checks false true a b r f g e = cc
after_checks false false a b r f g e = subst (λ x. IsFiltered x.1) (some_parts b r e) g

append_range-IsFiltered :
    (checks : Bool) (limit : ℕ) (ms : List Meas) (w : WalFile) (r : Status × WalFile)
    → IsFiltered w
    → append_range checks limit ms w ≡ some r
    → IsFiltered r.1
unfolding append_range
append_range-IsFiltered checks limit ms w r f e =
    let (passes, open_for, run) = bind_some (ensure checks (not w.is_readonly)) _ e in
    let opened : IsFiltered (record w { file = some (content w) }) = record {
      bloom_fits = f.bloom_fits;
      knows = f.knows;
    } in
    let size = write_size limit (length ms) w in
    after_checks (size == 0) (ltb (length ms) size) _ _ r opened
      (write_all-IsFiltered (take size ms) w f) run

take-length : (xs : List Meas) → take (length xs) xs ≡ xs
take-length [] = refl
take-length (x ∷ xs) = ap (λ r. x ∷ r) (take-length xs)

read_all-file :
    (w : WalFile) (xs : List Meas) → w.file ≡ some xs → w.writed ≡ length xs → read_all w ≡ some xs
unfolding read_all
read_all-file w xs e n =
    let enough : ltb (length xs) (length xs) ≡ false = ground arith in
    rw (e, n, enough) (ap some (take-length xs))

id_bloom-known :
    (w : WalFile) (xs : List Meas)
    → w.file ≡ some xs
    → w.writed ≡ length xs
    → IsFiltered w ⊎ (w.id_bloom ≡ 0)
    → (w' : WalFile) × (id_bloom w ≡ some (w'.id_bloom, w')) × IsFiltered w' × (w'.file ≡ some xs)
unfolding id_bloom
id_bloom-known w xs e n f = elim (Bool-cases (w.id_bloom == 0)) [
  | inl z ↦
      let (small, known) = bloom_of-AllChecked xs [] 0 (omega arith) tt in
      let same : content w ≡ xs = ap content_of e in
      (
        record w { id_bloom = bloom_of xs 0 },
        rw (z, read_all-file w xs e n) refl,
        record { bloom_fits = small; knows = subst (AllChecked (bloom_of xs 0)) (sym same) known },
        e,
      )
  | inr z ↦ elim f [ inl f ↦ (w, rw z refl, f, e) | inr zero_bloom ↦ absurd (grind tests) ]
]

-- For a log that counts what its file holds and whose filter knows all ids in the file, or is 0,
-- id_bloom gives a filter that all ids in the file pass, and after it every batch that is
-- appended leaves a filter that all ids in the file pass.
pub id_bloom-append_range :
    (w : WalFile) (xs : List Meas)
    → w.file ≡ some xs
    → w.writed ≡ length xs
    → IsFiltered w ⊎ (w.id_bloom ≡ 0)
    → (w' : WalFile) × (id_bloom w ≡ some (w'.id_bloom, w'))
      × AllChecked w'.id_bloom xs
      × ((checks : Bool) (limit : ℕ) (ms : List Meas) (r : Status × WalFile)
          → append_range checks limit ms w' ≡ some r
          → AllChecked r.1.id_bloom (content r.1))
id_bloom-append_range w xs e n f =
    let (w', found, f', held) = id_bloom-known w xs e n f in
    (
      w',
      found,
      subst (AllChecked w'.id_bloom) (ap content_of held) f'.knows,
      (λ checks limit ms r run. (append_range-IsFiltered checks limit ms w' r f' run).knows),
    )
