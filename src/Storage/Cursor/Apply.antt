-- ===== src/Storage/Cursor/Apply.antt =====
-- What `apply` and `read_time_point` make of the measurements that a cursor gives.
use memseries.Base.{
  ℕ, zero, suc, ◌<◌, ◌≡◌, arith, refl, Bool, Bool-cases, true, false, leb, ◌&&◌, if◌then◌else◌,
}
use memseries.Base.{some, List, [], ◌∷◌, length, inl, inr}
use memseries.Meas.{Meas, new_meas, in_query, in_query_interval}
use memseries.Storage.Cursor.{
  ICursor, Gives, QueryInterval, QueryTimePoint, apply_query, read_time_point, read_time_point_loop,
}

-- The calls of a callback, one after the other.
abbrev pub calls {ℓ} : {C : Type ℓ} → (Meas → C → C) → List Meas → C → C
calls call [] c = c
calls call (m ∷ ms) c = calls call ms (call m c)

abbrev pub keep_if : (Meas → Bool) → List Meas → List Meas
keep_if test [] = []
keep_if test (m ∷ ms) = if test m then m ∷ keep_if test ms else keep_if test ms

abbrev pub in_query_of : QueryInterval → Meas → Bool
in_query_of q m = in_query_interval q.ids q.flag q.from q.to m

-- The measurements that `readTimePoint` asks for, and the last of a list of them.
abbrev pub at_point : QueryTimePoint → Meas → Bool
at_point q m = leb m.time q.time_point && in_query q.ids q.flag m

abbrev pub last_or : Meas → List Meas → Meas
last_or d [] = d
last_or d (m ∷ ms) = last_or m ms

module _ {S : Type 0} (o : ICursor S) (checks : Bool) where
  module _ {C : Type 0} (call : Meas → C → C) (q : QueryInterval) where
    abbrev never : C → Bool
    never c = false

    -- Over a cursor that gives a list of measurements, with fuel for one round more than there
    -- are, apply with an interval query and a callback that never cancels calls the callback on
    -- exactly the measurements that the query asks for, in their order, and leaves the cursor at
    -- its end.
    pub apply_query-calls :
        (rounds : ℕ) (s : S) (ms : List Meas) (c : C)
        → Gives o checks s ms
        → length ms < rounds
        → (s' : S) × (apply_query o checks (λ _. false) call q rounds s c
            ≡ some (s', calls call (keep_if (in_query_of q) ms) c))
          × (o.is_end s' ≡ true)
    unfolding apply_query
    apply_query-calls zero s ms c g enough = absurd (omega arith)
    apply_query-calls (suc rounds) s [] c g enough = (s, rw g refl, g)
    apply_query-calls (suc rounds) s (m ∷ ms) c (going, t, (s', e, g)) enough =
        elim (Bool-cases (in_query_of q m)) [
          | inl inside ↦
              let (s'', run, ended) = apply_query-calls rounds s' ms (call m c) g (omega arith) in
              (s'', rw (going, e, inside) run, ended)
          | inr outside ↦
              let (s'', run, ended) = apply_query-calls rounds s' ms c g (omega arith) in
              (s'', rw (going, e, outside) run, ended)
        ]

  module _ (q : QueryTimePoint) where
    read_loop-last :
        (rounds : ℕ) (s : S) (ms : List Meas) (result : Meas)
        → Gives o checks s ms
        → length ms < rounds
        → read_time_point_loop o checks q rounds s false result
          ≡ some (last_or result (keep_if (at_point q) ms))
    unfolding read_time_point_loop
    read_loop-last zero s ms result g enough = absurd (omega arith)
    read_loop-last (suc rounds) s [] result g enough = rw g refl
    read_loop-last (suc rounds) s (m ∷ ms) result (going, t, (s', e, g)) enough =
        elim (Bool-cases (at_point q m)) [
          | inl inside ↦ rw (going, e, inside) (read_loop-last rounds s' ms m g (omega arith))
          | inr outside ↦
              rw (going, e, outside) (read_loop-last rounds s' ms result g (omega arith))
        ]

    -- Over a cursor that gives a list of measurements, with fuel for one round more than there
    -- are, read_time_point, which compares the times only where result_set is true, returns the
    -- last of those that the query asks for up to its time, in the order of the list whatever
    -- their times are, or an empty measurement when there is none.
    pub read_time_point-last :
        (rounds : ℕ) (s : S) (ms : List Meas)
        → Gives o checks s ms
        → length ms < rounds
        → read_time_point o checks q rounds s ≡ some (last_or new_meas (keep_if (at_point q) ms))
    unfolding read_time_point
    read_time_point-last rounds s ms g enough = read_loop-last rounds s ms new_meas g enough
