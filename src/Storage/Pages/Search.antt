-- ===== src/Storage/Pages/Search.antt =====
-- storage/pages/index.cpp: which chunks the search in an index finds.
use memseries.Base.{
  ℕ, zero, suc, ◌+◌, ◌%◌, ◌^◌, ◌≤◌, ◌<◌, ◌≡◌, arith, refl, ap, ◌∙◌, subst, Bool, Bool-cases, true,
  false, ◌&&◌, ◌||◌, ◌==◌, ltb, leb, if◌then◌else◌,
}
use memseries.Base.{
  Option, none, some, List, [], ◌∷◌, length, take, length-take, get_elem?, inl, inr,
}
use memseries.Meas.{contains}
use memseries.Storage.Bloom.{bloom_check}
use memseries.Storage.Pages.{
  IndexFooter, IndexReccord, ChunkLink, check_index_rec, check_blooms, any_blooms, link_of,
  add_link, links_from, get_chunks_links,
}

-- The link to a record.
unfoldable pub link_at : ℕ → List ChunkLink → Option ChunkLink
link_at pos [] = none
link_at pos (l ∷ links) =
    let later = link_at pos links in if l.index_rec_number == pos then some l else later

-- A record whose times touch the interval, of an id that is asked for, and whose filter knows the flag.
abbrev pub is_wanted : List ℕ → ℕ → ℕ → ℕ → IndexReccord → Bool
is_wanted ids from to flag it =
    leb it.stat.min_time to
    && leb from it.stat.max_time
    && ((length ids == 0)
        || (contains ids it.target_id && ((flag == 0) || bloom_check it.stat.flag_bloom flag)))

abbrev pub wanted_link : List ℕ → ℕ → ℕ → ℕ → ℕ → Option IndexReccord → Option ChunkLink
wanted_link ids from to flag pos none = none
wanted_link ids from to flag pos (some it) =
    if is_wanted ids from to flag it then some (link_of it pos) else none

-- No record ends before it begins.
abbrev pub AllRise : List IndexReccord → Type 0
AllRise [] = Unit
AllRise (it ∷ records) = (it.stat.min_time ≤ it.stat.max_time) × AllRise records

any_blooms-contains :
    (it : IndexReccord) (ids : List ℕ) (flag : ℕ)
    → any_blooms it ids flag
      ≡ contains ids it.target_id && ((flag == 0) || bloom_check it.stat.flag_bloom flag)
unfolding any_blooms check_blooms contains
any_blooms-contains it [] flag = refl
any_blooms-contains it (i ∷ ids) flag = ground (arith, any_blooms-contains it ids flag)

check_index_rec_lem :
    (it : IndexReccord) (from to : ℕ)
    → from ≤ to
    → it.stat.min_time ≤ it.stat.max_time
    → check_index_rec it from to ≡ leb it.stat.min_time to && leb from it.stat.max_time
unfolding check_index_rec
check_index_rec_lem it from to h g = ground arith

-- The test of the loop is that of `is_wanted`.
loop_test :
    (ids : List ℕ) (from to flag : ℕ) (it : IndexReccord)
    → from ≤ to
    → it.stat.min_time ≤ it.stat.max_time
    → (check_index_rec it from to && (if length ids == 0 then true else any_blooms it ids flag))
      ≡ is_wanted ids from to flag it
loop_test ids from to flag it h g =
    rw (check_index_rec_lem it from to h g, any_blooms-contains it ids flag)
      (ap (λ b. leb it.stat.min_time to && leb from it.stat.max_time && b)
        (either (length ids == 0) _))
  where
    either : (c e : Bool) → (if c then true else e) ≡ (c || e)
    either true e = refl
    either false e = refl

-- The links to the records from a position on.
unfoldable pub links_of : List ℕ → ℕ → ℕ → ℕ → ℕ → List IndexReccord → List ChunkLink
links_of ids from to flag pos [] = []
links_of ids from to flag pos (it ∷ records) =
    add_link ids from to flag pos it (links_of ids from to flag (pos + 1) records)

-- As long as the position does not wrap around, the loop ends with the links to the rest.
links_from-links_of :
    (ids : List ℕ) (from to flag : ℕ) (records : List IndexReccord) (recs_count rounds pos : ℕ)
    (rest : List IndexReccord)
    → recs_count < 2 ^ 32
    → pos + length rest ≡ recs_count
    → length rest < rounds
    → ((k : ℕ) → get_elem? records (pos + k) ≡ get_elem? rest k)
    → links_from ids from to flag records recs_count rounds pos
      ≡ some (links_of ids from to flag pos rest)
unfolding links_from links_of
links_from-links_of ids from to flag records recs_count zero pos rest few count enough same =
    absurd (omega arith)
links_from-links_of ids from to flag records recs_count (suc rounds) pos [] few count enough same =
    let ended : ltb pos recs_count ≡ false = ground arith in rw ended refl
links_from-links_of ids from to flag records recs_count (suc rounds) pos (it ∷ rest) few count
      enough same =
    let going : ltb pos recs_count ≡ true = ground arith in
    let next : (pos + 1) % 2 ^ 32 ≡ pos + 1 = omega arith in
    let here : get_elem? records pos ≡ some it = ap (get_elem? records) (omega arith) ∙ same 0 in
    let later : links_from ids from to flag records recs_count rounds (pos + 1)
        ≡ some (links_of ids from to flag (pos + 1) rest) =
      links_from-links_of ids from to flag records recs_count rounds (pos + 1) rest few
        (omega arith) (omega arith) (λ k. ap (get_elem? records) (omega arith) ∙ same (suc k)) in
    rw (going, here, next, later) refl

module _ (ids : List ℕ) (from to flag : ℕ) (h : from ≤ to) where
  link_at_before :
      (records : List IndexReccord) (start pos : ℕ)
      → pos < start
      → link_at pos (links_of ids from to flag start records) ≡ none
  unfolding link_at links_of add_link link_of
  link_at_before [] start pos lower = refl
  link_at_before (it ∷ records) start pos lower =
      let later = link_at_before records (start + 1) pos (omega arith) in
      let other : (start == pos) ≡ false = ground arith in
      elim (Bool-cases (
        check_index_rec it from to && (if length ids == 0 then true else any_blooms it ids flag))) [
          | inl taken ↦ rw (taken, other) later
          | inr left ↦ rw left later
        ]

  link_at-links_of :
      (records : List IndexReccord) (start k : ℕ)
      → AllRise records
      → link_at (start + k) (links_of ids from to flag start records)
        ≡ wanted_link ids from to flag (start + k) (get_elem? records k)
  unfolding link_at links_of add_link link_of
  link_at-links_of [] start k rise = refl
  link_at-links_of (it ∷ records) start zero (g, rise) =
      let test = loop_test ids from to flag it h g in
      let here : (start == start + 0) ≡ true = ground arith in
      elim (Bool-cases (is_wanted ids from to flag it)) [
        | inl wanted ↦ rw (test, wanted, here) (ap some (ap (link_of it) (omega arith)))
        | inr unwanted ↦
            rw (test, unwanted) (link_at_before records (start + 1) (start + 0) (omega arith))
      ]
  link_at-links_of (it ∷ records) start (suc k) (g, rise) =
      let other : (start == start + suc k) ≡ false = ground arith in
      let place : start + 1 + k ≡ start + suc k = omega arith in
      let later : link_at (start + suc k) (links_of ids from to flag (start + 1) records)
          ≡ wanted_link ids from to flag (start + suc k) (get_elem? records k) =
        subst
          (λ p.
            link_at p (links_of ids from to flag (start + 1) records)
            ≡ wanted_link ids from to flag p (get_elem? records k))
          place (link_at-links_of records (start + 1) k rise) in
      elim (Bool-cases (
        check_index_rec it from to && (if length ids == 0 then true else any_blooms it ids flag))) [
          | inl taken ↦ rw (taken, other) later
          | inr left ↦ rw left later
        ]

  -- For an interval that is not empty, an index file with as many records as its footer says and
  -- fewer than 2 ^ 32, none of which ends before it begins, and fuel for one round more than
  -- there are, get_chunks_links returns a link to a record exactly if its times touch the
  -- interval and, unless no ids are given, its id is among them and the flag is 0 or known to its
  -- filter.
  pub get_chunks_links-wanted :
      (file : List IndexReccord) (iheader : IndexFooter) (rounds : ℕ)
      → iheader.recs_count ≤ length file
      → iheader.recs_count < 2 ^ 32
      → iheader.recs_count < rounds
      → AllRise (take iheader.recs_count file)
      → (links : List ChunkLink) × (get_chunks_links file iheader rounds ids from to flag
          ≡ some links)
        × ((pos : ℕ)
            → link_at pos links
              ≡ wanted_link ids from to flag pos (get_elem? (take iheader.recs_count file) pos))
  unfolding get_chunks_links
  get_chunks_links-wanted file iheader rounds enough few fuel rise =
      let there : ltb (length file) iheader.recs_count ≡ false = ground arith in
      let records : List IndexReccord = take iheader.recs_count file in
      let counted : length records ≡ iheader.recs_count =
        omega (arith, length-take iheader.recs_count file) in
      (
        links_of ids from to flag 0 records,
        rw there (
            links_from-links_of ids from to flag records iheader.recs_count rounds 0 records few
              (omega arith) (omega arith) (λ k. ap (get_elem? records) (omega arith))),
        (λ pos.
            let same : 0 + pos ≡ pos = omega arith in
            subst
              (λ p.
                link_at p (links_of ids from to flag 0 records)
                ≡ wanted_link ids from to flag p (get_elem? records pos))
              same (link_at-links_of records 0 pos rise)),
      )
