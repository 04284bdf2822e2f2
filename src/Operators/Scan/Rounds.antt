-- ===== src/Operators/Scan/Rounds.antt =====
-- The rounds of the loop of `Scan::next` (src/operators.cpp).
use vectorized_query_engine.Base.{
  ℕ, zero, suc, ◌+◌, ◌-◌, ◌≤◌, ◌<◌, ◌≡◌, sym, ap, ◌∙◌, min, false, ◌&&◌, ltb, ◌==◌, length, arith,
  Bool-cases, inl, inr, ◌⊎◌,
}
use vectorized_query_engine.Base.Results.{ok, >>=-eq-ok}
use vectorized_query_engine.Vector.Batch.{Batch}
use vectorized_query_engine.Statistics.{may_match}
use vectorized_query_engine.Operators.Scan.{
  Scan, Progress, element, copy_columns, take_rows, read_group, round, rounds,
}

-- The cursor stands inside its group.
abbrev pub IsInside : Scan → Progress → Type 0
IsInside scan p =
    (b : Batch) → element scan.table.groups p.cursor.group ≡ ok b → p.cursor.row ≤ b.physical_size

-- A round passes to the first row of the next group, or fills the batch.
abbrev pub Advances : ℕ → Progress → Progress → Type 0
Advances capacity p p' =
    ((p'.cursor.group ≡ p.cursor.group + 1) × (p'.cursor.row ≡ 0)) ⊎ (p'.filled ≡ capacity)

ok-injective {ℓ} : {A : Type ℓ} {a b : A} → ok a ≡ ok b → a ≡ b
ok-injective h = cc

take_rows-Advances :
    (scan : Scan) (capacity : ℕ) (p p' : Progress)
    → p.filled < capacity
    → IsInside scan p
    → take_rows scan capacity p ≡ ok p'
    → Advances capacity p p'
unfolding take_rows
take_rows-Advances scan capacity p p' room inside h =
    let (b, eb, k) = >>=-eq-ok (element scan.table.groups p.cursor.group) _ h in
    let bound = inside b eb in
    let count = min (b.physical_size - p.cursor.row) (capacity - p.filled) in
    let (cs, ecs, done) =
      >>=-eq-ok (copy_columns p.columns b.columns scan.indices p.cursor.row count) _ k in
    let e = ok-injective done in
    elim (Bool-cases (p.cursor.row + count == b.physical_size)) [
      | inl ends ↦ inl (
        ap (λ (q : Progress). q.cursor.group) (sym e) ∙ rw ends,
        ap (λ (q : Progress). q.cursor.row) (sym e) ∙ rw ends,
      )
      | inr inner ↦ inr (ap (λ (q : Progress). q.filled) (sym e) ∙ ground arith)
    ]

round-Advances :
    (scan : Scan) (capacity : ℕ) (p p' : Progress)
    → p.filled < capacity
    → IsInside scan p
    → round scan capacity p ≡ ok p'
    → Advances capacity p p'
unfolding round
round-Advances scan capacity p p' room inside h = elim (Bool-cases (p.cursor.row == 0)) [
  | inr middle ↦ take_rows-Advances scan capacity p p' room inside (rw middle at h)
  | inl first ↦
      let h' = rw first at h in
      let (s, es, k) = >>=-eq-ok (element scan.table.group_statistics p.cursor.group) _ h' in
      let (possible, ep, k') = >>=-eq-ok (may_match scan.predicate scan.table.schema s) _ k in
      elim (Bool-cases possible) [
        | inl go ↦ take_rows-Advances scan capacity (read_group p) p' room inside (rw go at k')
        | inr skip ↦
            let e = ok-injective (rw skip at k') in
            let zeroed : p.cursor.row ≡ 0 = ground arith in
            inl (
              ap (λ (q : Progress). q.cursor.group) (sym e),
              ap (λ (q : Progress). q.cursor.row) (sym e) ∙ zeroed,
            )
      ]
]

-- With more rounds allowed than there are groups from the cursor on, and the cursor inside its
-- group, a scan's loop that returns has filled the batch or has passed the last group: it has not
-- stopped for want of rounds.
pub rounds-enough :
    (fuel : ℕ) (scan : Scan) (capacity : ℕ) (p p' : Progress)
    → length scan.table.groups < p.cursor.group + fuel
    → IsInside scan p
    → rounds fuel scan capacity p ≡ ok p'
    → (ltb p'.filled capacity && ltb p'.cursor.group (length scan.table.groups)) ≡ false
unfolding rounds
rounds-enough zero scan capacity p p' fuel_left inside h =
    let e = ok-injective h in rw (← e) (ground arith)
rounds-enough (suc fuel) scan capacity p p' enough inside h =
    elim (Bool-cases (ltb p.filled capacity && ltb p.cursor.group (length scan.table.groups))) [
      | inr over ↦ (let e = ok-injective (rw over at h) in rw (← e) over)
      | inl goes ↦
          let (q, eq, k) = >>=-eq-ok (round scan capacity p) _ (rw goes at h) in
          elim (round-Advances scan capacity p q (ground arith) inside eq) [
            | inl (next, start) ↦
                rounds-enough fuel scan capacity q p' (omega (arith, next))
                  (λ b eb. omega (arith, start)) k
            | inr full ↦ rounds_full fuel q p' full k
          ]
    ]
  where
    rounds_full :
        (fuel : ℕ) (q r : Progress)
        → q.filled ≡ capacity
        → rounds fuel scan capacity q ≡ ok r
        → (ltb r.filled capacity && ltb r.cursor.group (length scan.table.groups)) ≡ false
    rounds_full zero q r full h = (let e = ok-injective h in rw (← e) (ground (arith, full)))
    rounds_full (suc fuel) q r full h =
        let stops : (ltb q.filled capacity && ltb q.cursor.group (length scan.table.groups))
            ≡ false =
          ground (arith, full) in
        (let e = ok-injective (rw stops at h) in rw (← e) stops)
