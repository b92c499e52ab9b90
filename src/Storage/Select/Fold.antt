-- ===== src/Storage/Select/Fold.antt =====
-- storage/chunk.cpp: what the loop of `Chunk::stat` computes over a cursor.
use memseries.Base.{ℕ, zero, suc, ◌<◌, ◌≡◌, arith, refl, Bool, Bool-cases, inl, inr}
use memseries.Base.{some, List, [], ◌∷◌, length}
use memseries.Meas.{Meas, in_interval_of}
use memseries.Storage.Statistic.{Doubles, Statistic, update}
use memseries.Storage.Statistic.Laws.{collect}
use memseries.Storage.Cursor.{ICursor, Gives}
use memseries.Storage.Cursor.Apply.{keep_if}
use memseries.Storage.Select.{stat_loop}

abbrev pub inside : ℕ → ℕ → Meas → Bool
inside from to m = in_interval_of from to m.time

-- Over a cursor that gives a list of measurements, with fuel for one round more than there are,
-- the loop of Chunk::stat returns the statistic updated with exactly those whose time lies in the
-- interval, in their order.
pub stat_loop-collect :
    {S : Type 0} (o : ICursor S) (d : Doubles) (checks : Bool) (from to rounds : ℕ) (s : S)
    (ms : List Meas) (st : Statistic)
    → Gives o checks s ms
    → length ms < rounds
    → stat_loop o d checks from to rounds s st ≡ some (collect d (keep_if (inside from to) ms) st)
unfolding stat_loop collect
stat_loop-collect o d checks from to zero s ms st g enough = absurd (omega arith)
stat_loop-collect o d checks from to (suc rounds) s [] st g enough = rw g refl
stat_loop-collect o d checks from to (suc rounds) s (m ∷ ms) st (going, t, (s', e, g)) enough =
    elim (Bool-cases (inside from to m)) [
      | inl in_it ↦
          rw (going, e, in_it)
            (stat_loop-collect o d checks from to rounds s' ms (update d m st) g (omega arith))
      | inr out ↦
          rw (going, e, out) (stat_loop-collect o d checks from to rounds s' ms st g (omega arith))
    ]
