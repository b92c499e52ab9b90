-- ===== src/Storage/Cursor.antt =====
-- interfaces/icursor.h and icursor.cpp: the cursor interface, as a record of operations on a state,
-- and the members that every cursor shares.
pub mod Instances
pub mod Apply
use memseries.Base.{ℕ, zero, suc, Bool, true, false, not, ltb, leb, ◌&&◌, if◌then◌else◌, ◌≡◌}
use memseries.Base.{Option, none, some, ◌>>=◌, List, [], ◌∷◌}
use memseries.Meas.{Meas, new_meas, in_query, in_query_interval}

-- The virtual members. A `readNext` or a `top` that throws or faults is `none`; the argument of
-- `read_next` is `DOUBLE_CHECKS`.
pub record ICursor (S : Type 0) : Type 0 where
  pub read_next : Bool → S → Option (Meas × S)
  pub top : S → Option Meas
  pub is_end : S → Bool
  pub from_time : S → ℕ
  pub to_time : S → ℕ
  pub count : S → ℕ

-- query.h: `QueryInterval` and `QueryTimePoint`.
pub record QueryInterval : Type 0 where
  pub ids : List ℕ
  pub flag : ℕ
  pub from : ℕ
  pub to : ℕ
  pub step : ℕ

pub record QueryTimePoint : Type 0 where
  pub ids : List ℕ
  pub flag : ℕ
  pub time_point : ℕ

module _ {S : Type 0} (o : ICursor S) (checks : Bool) where
  -- The cursor returns these measurements, and then is at its end.
  abbrev pub Gives : S → List Meas → Type 0
  Gives s [] = o.is_end s ≡ true
  Gives s (m ∷ ms) =
      (o.is_end s ≡ false)
      × (o.top s ≡ some m)
      × ((s' : S) × (o.read_next checks s ≡ some (m, s')) × Gives s' ms)

  -- `apply(clbk)`: `canceled` is asked before each read and `call` is the callback, both on the state
  -- `C` of the callback. `rounds` is fuel for the loop.
  module _ {C : Type 0} (canceled : C → Bool) (call : Meas → C → C) where
    unfoldable pub apply : ℕ → S → C → Option (S × C)
    apply zero s c = none
    apply (suc rounds) s c =
        let more = (do (m, s') ← o.read_next checks s; apply rounds s' (call m c)) in
        if o.is_end s then some (s, c) else if canceled c then some (s, c) else more

    -- `apply(clbk, q)`.
    unfoldable pub apply_query : QueryInterval → ℕ → S → C → Option (S × C)
    apply_query q zero s c = none
    apply_query q (suc rounds) s c =
        let more = (do
          (m, s') ← o.read_next checks s
          let c' = if in_query_interval q.ids q.flag q.from q.to m then call m c else c
          apply_query q rounds s' c') in
        if o.is_end s then some (s, c) else if canceled c then some (s, c) else more

  -- The body of the loop of `read_time_point`, with its flag `result_set` and its `result`.
  abbrev pub keep_latest : QueryTimePoint → Meas → Bool → Meas → Meas
  keep_latest q m result_set result =
      if leb m.time q.time_point && in_query q.ids q.flag m
      then (if not result_set then m else if ltb result.time m.time then m else result)
      else result

  -- The loop, which assigns `result` and not `result_set`.
  unfoldable pub read_time_point_loop : QueryTimePoint → ℕ → S → Bool → Meas → Option Meas
  read_time_point_loop q zero s result_set result = none
  read_time_point_loop q (suc rounds) s result_set result =
      let more = (do
        (m, s') ← o.read_next checks s
        read_time_point_loop q rounds s' result_set (keep_latest q m result_set result)) in
      if o.is_end s then some result else more

  unfoldable pub read_time_point : QueryTimePoint → ℕ → S → Option Meas
  unfolding read_time_point_loop
  read_time_point q rounds s = read_time_point_loop q rounds s false new_meas
