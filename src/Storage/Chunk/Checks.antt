-- ===== src/Storage/Chunk/Checks.antt =====
-- storage/chunk.cpp: `checkFlag`, by which a query leaves a chunk out.
use memseries.Base.{ℕ, ◌≡◌, refl, Bool-cases, true, ◌==◌, List, [], ◌∷◌, inl, inr, sym, subst}
use memseries.Meas.{Meas}
use memseries.Storage.Bloom.{bloom_check}
use memseries.Storage.Statistic.{Doubles, new_statistic}
use memseries.Storage.Statistic.Laws.{collect, collect-KnowsAll, KnowsAll}
use memseries.Storage.Chunk.{Chunk, check_flag}

-- The check lets every flag of the list pass.
abbrev pub AllPass : Chunk → List Meas → Type 0
AllPass c [] = Unit {0}
AllPass c (m ∷ ms) = (check_flag m.flag c ≡ true) × AllPass c ms

check_flag_known :
    (f : ℕ) (c : Chunk) → bloom_check c.header.stat.flag_bloom f ≡ true → check_flag f c ≡ true
unfolding check_flag
check_flag_known f c h = elim (Bool-cases (f == 0)) [
  | inl zero' ↦ rw zero' refl
  | inr other ↦ rw (other, h) refl
]

AllPass-KnowsAll : (c : Chunk) (ms : List Meas) → KnowsAll c.header.stat ms → AllPass c ms
AllPass-KnowsAll c [] h = tt
AllPass-KnowsAll c (m ∷ ms) (here, rest) =
    (check_flag_known m.flag c here.flag, AllPass-KnowsAll c ms rest)

-- A chunk whose statistic is that of a list of measurements lets the check of its flags pass for
-- the flag of each of them.
pub check_flag-collect :
    (d : Doubles) (c : Chunk) (ms : List Meas)
    → c.header.stat ≡ collect d ms new_statistic
    → AllPass c ms
check_flag-collect d c ms e =
    AllPass-KnowsAll c ms (subst (λ s. KnowsAll s ms) (sym e) (collect-KnowsAll d ms new_statistic))
