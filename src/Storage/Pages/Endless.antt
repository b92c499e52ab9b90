-- ===== src/Storage/Pages/Endless.antt =====
-- storage/pages/index.cpp: the counter of the search in an index, at 2 ^ 32 records and more.
use memseries.Base.{ℕ, zero, suc, ◌+◌, ◌%◌, ◌^◌, ◌≤◌, ◌<◌, ◌≡◌, arith, refl, true, false, ltb}
use memseries.Base.{Option, none, some, ◌>>=◌, List, [], ◌∷◌, length, take, length-take, get_elem?}
use memseries.Storage.Pages.{IndexFooter, IndexReccord, add_link, links_from, get_chunks_links}

get_elem?-inside :
    (records : List IndexReccord) (pos : ℕ)
    → pos < length records
    → (it : IndexReccord) × (get_elem? records pos ≡ some it)
get_elem?-inside [] pos h = absurd (omega arith)
get_elem?-inside (it ∷ records) zero h = (it, refl)
get_elem?-inside (it ∷ records) (suc pos) h = get_elem?-inside records pos (omega arith)

-- With a count that 32 bits do not hold, no fuel is enough.
links_from_endless :
    (ids : List ℕ) (from to flag : ℕ) (records : List IndexReccord) (recs_count rounds pos : ℕ)
    → 2 ^ 32 ≤ recs_count
    → pos < 2 ^ 32
    → links_from ids from to flag records recs_count rounds pos ≡ none
unfolding links_from
links_from_endless ids from to flag records recs_count zero pos many inside = refl
links_from_endless ids from to flag records recs_count (suc rounds) pos many inside =
    let going : ltb pos recs_count ≡ true = ground arith in
    let later : links_from ids from to flag records recs_count rounds ((pos + 1) % 2 ^ 32) ≡ none =
      links_from_endless ids from to flag records recs_count rounds ((pos + 1) % 2 ^ 32) many
        (omega arith) in
    rw (going, later) (no_links (get_elem? records pos))
  where
    no_links :
        (o : Option IndexReccord)
        → (o >>= λ it. none >>= λ links. some (add_link ids from to flag pos it links)) ≡ none
    no_links none = refl
    no_links (some it) = refl

-- For an index file with as many records as its footer says, and 2 ^ 32 of them or more,
-- get_chunks_links reads no record outside of the file and yet does not return, whatever the
-- fuel.
pub get_chunks_links_endless :
    (file : List IndexReccord) (iheader : IndexFooter) (rounds : ℕ) (ids : List ℕ)
    (from to flag : ℕ)
    → 2 ^ 32 ≤ iheader.recs_count
    → iheader.recs_count ≤ length file
    → ((pos : ℕ)
        → pos < 2 ^ 32
        → (it : IndexReccord) × (get_elem? (take iheader.recs_count file) pos ≡ some it))
      × (get_chunks_links file iheader rounds ids from to flag ≡ none)
unfolding get_chunks_links
get_chunks_links_endless file iheader rounds ids from to flag many enough =
    let there : ltb (length file) iheader.recs_count ≡ false = ground arith in
    let records : List IndexReccord = take iheader.recs_count file in
    (
      (λ pos h. get_elem?-inside records pos (omega (arith, length-take iheader.recs_count file))),
      rw there (
          links_from_endless ids from to flag records iheader.recs_count rounds 0 many
            (omega arith)),
    )
