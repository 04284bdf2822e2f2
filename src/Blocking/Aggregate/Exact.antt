-- ===== src/Blocking/Aggregate/Exact.antt =====
-- SUM, MIN and MAX of integers (HashAggregate of src/blocking.cpp) against the list of the values
-- that a group has seen.
use vectorized_query_engine.Base.{
  ◌≡◌, ◌⊎◌, refl, sym, ap, ◌∙◌, Bool, true, false, not, ◌&&◌, List, [], ◌∷◌, if◌then◌else◌, arith,
  inl, inr, Bool-cases,
}
use vectorized_query_engine.Base.Int.{ℤ, pos, ◌+ℤ◌, ltb_ℤ}
use vectorized_query_engine.Vector.Value.{value_type, int64, Value, null, int}
use vectorized_query_engine.Vector.Column.{Column, append_value, append_int64}
use vectorized_query_engine.Expression.Scalar.{fits_int64}
use vectorized_query_engine.Expression.Evaluator.Numbers.{wrap64-fits}
use vectorized_query_engine.Blocking.{AggregateKind, count, sum, minimum, maximum}
use vectorized_query_engine.Blocking.Aggregate.{append_result}
use vectorized_query_engine.Blocking.Aggregate.Update.{State, no_state, int64_row}

-- The state after the values, one row at a time.
abbrev pub after_rows : AggregateKind → List ℤ → State → State
after_rows k [] s = s
after_rows k (x ∷ xs) s = after_rows k xs (int64_row k x s)

-- The exact sum, from z on, and whether every sum on the way is one of 64 bits.
abbrev pub total : ℤ → List ℤ → ℤ
total z [] = z
total z (x ∷ xs) = total (z +ℤ x) xs

abbrev pub sums_fit : ℤ → List ℤ → Bool
sums_fit z [] = true
sums_fit z (x ∷ xs) = fits_int64 (z +ℤ x) && sums_fit (z +ℤ x) xs

-- SUM in SQL: NULL without rows and on overflow.
abbrev pub sql_sum : List ℤ → Value
sql_sum [] = null
sql_sum (x ∷ xs) = if sums_fit (pos 0) (x ∷ xs) then int (total (pos 0) (x ∷ xs)) else null

overflow-stays :
    (xs : List ℤ) (s : State) → s.overflow ≡ true → (after_rows sum xs s).overflow ≡ true
unfolding int64_row
overflow-stays [] s h = h
overflow-stays (x ∷ xs) s h = overflow-stays xs (int64_row sum x s) (rw h)

seen-stays :
    (k : AggregateKind) (xs : List ℤ) (s : State) → s.seen ≡ true → (after_rows k xs s).seen ≡ true
unfolding int64_row
seen-stays k [] s h = h
seen-stays count (x ∷ xs) s h = seen-stays count xs (int64_row count x s) refl
seen-stays sum (x ∷ xs) s h = seen-stays sum xs (int64_row sum x s) refl
seen-stays minimum (x ∷ xs) s h = seen-stays minimum xs (int64_row minimum x s) refl
seen-stays maximum (x ∷ xs) s h = seen-stays maximum xs (int64_row maximum x s) refl

sum_lem :
    (xs : List ℤ) (s : State)
    → s.overflow ≡ false
    → ((after_rows sum xs s).overflow ≡ not (sums_fit s.integer xs))
      × (sums_fit s.integer xs ≡ true → (after_rows sum xs s).integer ≡ total s.integer xs)
unfolding int64_row
sum_lem [] s h = (h, λ e. refl)
sum_lem (x ∷ xs) s h =
    let next = int64_row sum x s in
    elim (Bool-cases (fits_int64 (s.integer +ℤ x))) [
      | inl fits ↦
          let here : next.integer ≡ s.integer +ℤ x = wrap64-fits (s.integer +ℤ x) fits in
          let (over, exact) = sum_lem xs next (rw (h, fits)) in
          (
            rw fits (over ∙ ap (λ z. not (sums_fit z xs)) here),
            λ e. exact (ap (λ z. sums_fit z xs) here ∙ (rw fits at e)) ∙ ap (λ z. total z xs) here,
          )
      | inr large ↦
          (rw large (overflow-stays xs next (rw (h, large))), λ e. (let k = rw large at e in cc))
    ]

sum_integer :
    (s : State) (c : Column)
    → c.type ≡ int64
    → s.seen ≡ true
    → s.overflow ≡ false
    → append_result sum s c ≡ append_value c (int s.integer)
unfolding append_result append_value append_int64 value_type
sum_integer s c t seen over = rw (seen, over, t)

-- The cell that SUM yields.
pub sum-Exact :
    (xs : List ℤ) (c : Column)
    → c.type ≡ int64
    → append_result sum (after_rows sum xs no_state) c ≡ append_value c (sql_sum xs)
unfolding append_result append_value append_int64 value_type
sum-Exact [] c t = refl
sum-Exact (x ∷ xs) c t =
    let s = after_rows sum (x ∷ xs) no_state in
    let (over, exact) = sum_lem (x ∷ xs) no_state refl in
    let seen = seen-stays sum xs (int64_row sum x no_state) (unfold int64_row in refl) in
    elim (Bool-cases (sums_fit (pos 0) (x ∷ xs))) [
      | inl fits ↦
          sum_integer s c t seen (over ∙ ap not fits)
          ∙ rw fits (ap (λ z. append_value c (int z)) (exact fits))
      | inr large ↦ (let o = over ∙ ap not large in rw (seen, o, large))
    ]

-- Whether x comes before y: below it for MIN, above it for MAX.
abbrev pub before : AggregateKind → ℤ → ℤ → Bool
before minimum x y = ltb_ℤ x y
before _ x y = ltb_ℤ y x

abbrev pub IsExtreme : AggregateKind → Type 0
IsExtreme minimum = Unit
IsExtreme maximum = Unit
IsExtreme _ = ⊥

-- A value of the list.
abbrev pub IsIn : ℤ → List ℤ → Type 0
IsIn r [] = ⊥
IsIn r (x ∷ xs) = (r ≡ x) ⊎ IsIn r xs

-- No value of the list comes before r.
abbrev pub IsFirst : AggregateKind → ℤ → List ℤ → Type 0
IsFirst k r [] = Unit
IsFirst k r (x ∷ xs) = (before k x r ≡ false) × IsFirst k r xs

not_before :
    (k : AggregateKind) (x y z : ℤ)
    → before k x y ≡ false
    → before k y z ≡ false
    → before k x z ≡ false
not_before k x y z h h' = ground arith

irreflexive : (k : AggregateKind) (x : ℤ) → before k x x ≡ false
irreflexive k x = ground arith

asymmetric : (k : AggregateKind) (x y : ℤ) → before k x y ≡ true → before k y x ≡ false
asymmetric k x y h = ground arith

-- One more value.
extreme_row :
    (k : AggregateKind) (x : ℤ) (s : State)
    → IsExtreme k
    → s.seen ≡ true
    → ((int64_row k x s).integer ≡ x ⊎ (int64_row k x s).integer ≡ s.integer)
      × (before k x (int64_row k x s).integer ≡ false)
      × (before k s.integer (int64_row k x s).integer ≡ false)
      × ((int64_row k x s).seen ≡ true)
unfolding int64_row
extreme_row minimum x s h seen = elim (Bool-cases (ltb_ℤ x s.integer)) [
  | inl first ↦
      rw (seen, first) (inl refl, irreflexive minimum x, asymmetric minimum x s.integer first, refl)
  | inr later ↦ rw (seen, later) (inr refl, later, irreflexive minimum s.integer, refl)
]
extreme_row maximum x s h seen = elim (Bool-cases (ltb_ℤ s.integer x)) [
  | inl first ↦
      rw (seen, first) (inl refl, irreflexive maximum x, asymmetric maximum x s.integer first, refl)
  | inr later ↦ rw (seen, later) (inr refl, later, irreflexive maximum s.integer, refl)
]
extreme_row _ x s h seen = absurd h

extreme_lem :
    (k : AggregateKind) (xs : List ℤ) (s : State)
    → IsExtreme k
    → s.seen ≡ true
    → ((after_rows k xs s).integer ≡ s.integer ⊎ IsIn (after_rows k xs s).integer xs)
      × (before k s.integer (after_rows k xs s).integer ≡ false)
      × IsFirst k (after_rows k xs s).integer xs
extreme_lem k [] s h seen = (inl refl, irreflexive k s.integer, tt)
extreme_lem k (x ∷ xs) s h seen =
    let (from, over_x, over_s, seen') = extreme_row k x s h seen in
    let next = int64_row k x s in
    let (member, over_next, first) = extreme_lem k xs next h seen' in
    let r = (after_rows k xs next).integer in
    (
      elim member [
        | inr later ↦ inr (inr later)
        | inl same ↦ elim from [ inl is_x ↦ inr (inl (same ∙ is_x)) | inr is_s ↦ inl (same ∙ is_s) ]
      ],
      not_before k s.integer next.integer r over_s over_next,
      (not_before k x next.integer r over_x over_next, first),
    )

first_row :
    (k : AggregateKind) (x : ℤ)
    → IsExtreme k
    → ((int64_row k x no_state).integer ≡ x)
      × ((int64_row k x no_state).seen ≡ true)
      × ((int64_row k x no_state).overflow ≡ false)
unfolding int64_row
first_row minimum x h = (refl, refl, refl)
first_row maximum x h = (refl, refl, refl)
first_row _ x h = absurd h

no_overflow :
    (k : AggregateKind) (xs : List ℤ) (s : State)
    → IsExtreme k
    → s.overflow ≡ false
    → (after_rows k xs s).overflow ≡ false
unfolding int64_row
no_overflow k [] s h o = o
no_overflow minimum (x ∷ xs) s h o = no_overflow minimum xs (int64_row minimum x s) h o
no_overflow maximum (x ∷ xs) s h o = no_overflow maximum xs (int64_row maximum x s) h o
no_overflow _ (x ∷ xs) s h o = absurd h

appends_integer :
    (k : AggregateKind) (s : State) (c : Column)
    → IsExtreme k
    → c.type ≡ int64
    → s.seen ≡ true
    → s.overflow ≡ false
    → append_result k s c ≡ append_value c (int s.integer)
unfolding append_result append_value append_int64 value_type
appends_integer minimum s c h t seen over = rw (seen, over, t)
appends_integer maximum s c h t seen over = rw (seen, over, t)
appends_integer _ s c h t seen over = absurd h

-- The cell that MIN or MAX yields.
pub extreme-Exact :
    (k : AggregateKind) (x : ℤ) (xs : List ℤ) (c : Column)
    → IsExtreme k
    → c.type ≡ int64
    → (r : ℤ) × (append_result k (after_rows k (x ∷ xs) no_state) c ≡ append_value c (int r))
      × IsIn r (x ∷ xs)
      × IsFirst k r (x ∷ xs)
extreme-Exact k x xs c h t =
    let s = int64_row k x no_state in
    let (is_x, seen, over) = first_row k x h in
    let (member, over_x, first) = extreme_lem k xs s h seen in
    let r = (after_rows k xs s).integer in
    (
      r,
      appends_integer k (after_rows k xs s) c h t (seen-stays k xs s seen)
          (no_overflow k xs s h over),
      elim member [ inl same ↦ inl (same ∙ is_x) | inr later ↦ inr later ],
      (ap (λ y. before k y r) (sym is_x) ∙ over_x, first),
    )
