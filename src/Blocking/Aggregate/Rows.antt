-- ===== src/Blocking/Aggregate/Rows.antt =====
-- The aggregates of an integer column over the rows of a group (HashAggregate of src/blocking.cpp).
use vectorized_query_engine.Base.{
  ℕ, ◌≡◌, refl, ap, ◌∙◌, true, false, some, List, [], ◌∷◌, get_or, if◌then◌else◌, inl, inr,
  Bool-cases,
}
use vectorized_query_engine.Base.Int.{ℤ, pos}
use vectorized_query_engine.Base.Results.{Result, ok, ◌>>=◌}
use vectorized_query_engine.Vector.Double.{Arithmetic}
use vectorized_query_engine.Vector.Value.{int64, int}
use vectorized_query_engine.Vector.Validity
use vectorized_query_engine.Vector.Column.{Column, int64s, append_value}
use vectorized_query_engine.Blocking.{AggregateKind, sum, minimum, maximum}
use vectorized_query_engine.Blocking.Aggregate.{update_state, append_result}
use vectorized_query_engine.Blocking.Aggregate.Update.{State, no_state, int64_row}
use vectorized_query_engine.Blocking.Aggregate.Exact.{
  after_rows, sql_sum, sum-Exact, IsExtreme, IsIn, IsFirst, extreme-Exact,
}

-- The integers in the rows that are not NULL.
abbrev pub present : Column → List ℤ → List ℕ → List ℤ
present c d [] = []
present c d (i ∷ rows) =
    if Validity.valid c.validity i then get_or d i (pos 0) ∷ present c d rows else present c d rows

-- The state of a group after its rows.
abbrev pub update_rows : Arithmetic → AggregateKind → Column → List ℕ → State → Result State
update_rows m k c [] s = ok s
update_rows m k c (i ∷ rows) s = update_state m k (some c) i s >>= λ s'. update_rows m k c rows s'

-- SUM, MIN or MAX
abbrev IsValued : AggregateKind → Type 0
IsValued sum = Unit
IsValued k = IsExtreme k

module _ (m : Arithmetic) (c : Column) (d : List ℤ) (typed : c.type ≡ int64)
    (array : c.payload ≡ int64s d) where
  update_state-valid :
      (k : AggregateKind) (i : ℕ) (s : State)
      → IsValued k
      → Validity.valid c.validity i ≡ true
      → update_state m k (some c) i s ≡ ok (int64_row k (get_or d i (pos 0)) s)
  unfolding update_state
  update_state-valid sum i s h there = rw (there, typed, array)
  update_state-valid minimum i s h there = rw (there, typed, array)
  update_state-valid maximum i s h there = rw (there, typed, array)
  update_state-valid _ i s h there = absurd h

  update_state-null :
      (k : AggregateKind) (i : ℕ) (s : State)
      → Validity.valid c.validity i ≡ false
      → update_state m k (some c) i s ≡ ok s
  unfolding update_state
  update_state-null k i s gone = rw gone

  update_rows-present :
      (k : AggregateKind) (rows : List ℕ) (s : State)
      → IsValued k
      → update_rows m k c rows s ≡ ok (after_rows k (present c d rows) s)
  update_rows-present k [] s h = refl
  update_rows-present k (i ∷ rows) s h = elim (Bool-cases (Validity.valid c.validity i)) [
    | inl there ↦
        rw (update_state-valid k i s h there, there)
          (update_rows-present k rows (int64_row k (get_or d i (pos 0)) s) h)
    | inr gone ↦ rw (update_state-null k i s gone, gone) (update_rows-present k rows s h)
  ]

  -- For the rows of a group and an integer column, the updates of SUM return a state, and the cell
  -- that it yields in an integer output column is the exact sum of the values that are not NULL, or
  -- NULL if there is none or if a sum on the way leaves 64 bits.
  pub sum-Computes :
      (rows : List ℕ) (out : Column)
      → out.type ≡ int64
      → (s : State) × (update_rows m sum c rows no_state ≡ ok s)
        × (append_result sum s out ≡ append_value out (sql_sum (present c d rows)))
  sum-Computes rows out t = (
    after_rows sum (present c d rows) no_state,
    update_rows-present sum rows no_state tt,
    sum-Exact (present c d rows) out t,
  )

  -- For the rows of a group and an integer column with at least one row that is not NULL, the
  -- updates of MIN or MAX return a state, and the cell that it yields in an integer output column
  -- is one of those rows' values, and none of them lies below it for MIN, or above it for MAX.
  pub extreme-Computes :
      (k : AggregateKind) (rows : List ℕ) (out : Column) {x : ℤ} {xs : List ℤ}
      → IsExtreme k
      → out.type ≡ int64
      → present c d rows ≡ x ∷ xs
      → (s : State) × (r : ℤ) × (update_rows m k c rows no_state ≡ ok s)
        × (append_result k s out ≡ append_value out (int r))
        × IsIn r (x ∷ xs)
        × IsFirst k r (x ∷ xs)
  extreme-Computes k rows out {x} {xs} h t some_row =
      let (r, e, member, first) = extreme-Exact k x xs out h t in
      (
        after_rows k (x ∷ xs) no_state,
        r,
        update_rows-present k rows no_state (valued k h)
            ∙ ap (λ l. ok (after_rows k l no_state)) some_row,
        e,
        member,
        first,
      )
    where
      valued : (k : AggregateKind) → IsExtreme k → IsValued k
      valued minimum h = tt
      valued maximum h = tt
      valued _ h = absurd h
