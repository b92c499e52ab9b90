-- ===== src/Container/StripedMap/Locks/Guarded.antt =====
-- utils/striped_map.h: the steps of the operations against the locks that they hold.
use memseries.Base.{ℕ, zero, suc}
use memseries.Base.{List, [], ◌∷◌}
use memseries.Container.StripedMap.{StripedMap}

-- The locks below a number, the last one taken first.
abbrev below : ℕ → List ℕ
below zero = []
below (suc i) = i ∷ below i
