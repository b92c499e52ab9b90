-- ===== src/Meas/Laws.antt =====
-- libdariadb/meas.h, meas.cpp and utils/in_interval.h: the test for two intervals that meet.
use memseries.Base.{ℕ, ◌≤◌, ◌≡◌, ◌↔◌, arith, true, max}
use memseries.Meas.{intervals_intersection}

-- For two intervals that are not empty, the test for their intersection is true exactly if some
-- time lies in both.
pub intervals_intersection_iff :
    (from1 to1 from2 to2 : ℕ)
    → from1 ≤ to1
    → from2 ≤ to2
    → (intervals_intersection from1 to1 from2 to2 ≡ true)
      ↔ ((t : ℕ) × (from1 ≤ t) × (t ≤ to1) × (from2 ≤ t) × (t ≤ to2))
unfolding intervals_intersection
intervals_intersection_iff from1 to1 from2 to2 p q = (
  λ h. (max from1 from2, omega arith, ground arith, omega arith, ground arith),
  λ (t, a, b, c, d). ground arith,
)
