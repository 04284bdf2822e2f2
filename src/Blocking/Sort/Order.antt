-- ===== src/Blocking/Sort/Order.antt =====
-- The order that Sort (src/blocking.cpp) puts the rows in.
use vectorized_query_engine.Base.{
  ℕ, zero, suc, ◌+◌, ◌<◌, ◌≡◌, refl, ◌∙◌, Bool, true, false, List, [], ◌∷◌, ◌==◌, ltb,
  if◌then◌else◌, arith, inl, inr, Bool-cases, tabulate, tabulate_ext,
}
use vectorized_query_engine.Base.Sorting.{insert, insert_all, stable_sort}
use vectorized_query_engine.Blocking.Sort.{Key, comes_before, order_rows, first_rows}
use vectorized_query_engine.Blocking.Sort.Weak.{IsWeak, ltb-IsWeak, then_by, then_by_trans}
use vectorized_query_engine.Blocking.Sort.Lexical.{row_before, AllNormal}
use vectorized_query_engine.Blocking.Sort.Comparator.{row_before-comes_before, comes_before-IsWeak}

-- x comes before every element.
abbrev pub IsAhead {ℓ} : {A : Type ℓ} → (A → A → Bool) → A → List A → Type 0
IsAhead less x [] = Unit
IsAhead less x (y ∷ ys) = (less x y ≡ true) × IsAhead less x ys

-- Every element comes before all later ones.
abbrev pub IsOrdered {ℓ} : {A : Type ℓ} → (A → A → Bool) → List A → Type 0
IsOrdered less [] = Unit
IsOrdered less (x ∷ xs) = IsAhead less x xs × IsOrdered less xs

-- How often a row number stands in a list.
abbrev pub occurrences : ℕ → List ℕ → ℕ
occurrences i [] = 0
occurrences i (x ∷ xs) = if x == i then occurrences i xs + 1 else occurrences i xs

abbrev IsAbove : ℕ → List ℕ → Type 0
IsAbove n [] = Unit
IsAbove n (x ∷ xs) = (x < n) × IsAbove n xs

IsAbove-weaken : (n : ℕ) (xs : List ℕ) → IsAbove n xs → IsAbove (n + 1) xs
IsAbove-weaken n [] h = tt
IsAbove-weaken n (x ∷ xs) h = (omega (arith, h.0), IsAbove-weaken n xs h.1)

-- Rows in rising order are put one by one into a list, each behind those that it does not precede.
module _ {less : ℕ → ℕ → Bool} (w : IsWeak less) where
  abbrev full : ℕ → ℕ → Bool
  full = then_by less ltb

  full_trans : (a b c : ℕ) → full a b ≡ true → full b c ≡ true → full a c ≡ true
  full_trans = then_by_trans w ltb-IsWeak

  IsAhead-trans : (x y : ℕ) (ys : List ℕ) → full x y ≡ true → IsAhead full y ys → IsAhead full x ys
  IsAhead-trans x y [] h first = tt
  IsAhead-trans x y (z ∷ zs) h first = (full_trans x y z h first.0, IsAhead-trans x y zs h first.1)

  IsAhead-insert :
      (z x : ℕ) (xs : List ℕ)
      → full z x ≡ true
      → IsAhead full z xs
      → IsAhead full z (insert less x xs)
  unfolding insert
  IsAhead-insert z x [] h first = (h, tt)
  IsAhead-insert z x (y ∷ ys) h first = elim (Bool-cases (less x y)) [
    | inl before ↦ rw before (h, first)
    | inr behind ↦ rw behind (first.0, IsAhead-insert z x ys h first.1)
  ]

  before_full : (x y : ℕ) → less x y ≡ true → full x y ≡ true
  before_full x y h = ground arith

  behind_full : (x y : ℕ) → less x y ≡ false → y < x → full y x ≡ true
  behind_full x y h k = ground arith

  insert-IsOrdered :
      (x : ℕ) (xs : List ℕ) → IsAbove x xs → IsOrdered full xs → IsOrdered full (insert less x xs)
  unfolding insert
  insert-IsOrdered x [] above o = (tt, tt)
  insert-IsOrdered x (y ∷ ys) above o = elim (Bool-cases (less x y)) [
    | inl before ↦ let h = before_full x y before in rw before ((h, IsAhead-trans x y ys h o.0), o)
    | inr behind ↦ rw behind (
      IsAhead-insert y x ys (behind_full x y behind above.0) o.0,
      insert-IsOrdered x ys above.1 o.1,
    )
  ]

  IsAbove-insert : (n x : ℕ) (xs : List ℕ) → x < n → IsAbove n xs → IsAbove n (insert less x xs)
  unfolding insert
  IsAbove-insert n x [] h above = (h, tt)
  IsAbove-insert n x (y ∷ ys) h above = elim (Bool-cases (less x y)) [
    | inl before ↦ rw before (h, above)
    | inr behind ↦ rw behind (above.0, IsAbove-insert n x ys h above.1)
  ]

  insert_all-IsOrdered :
      (n from : ℕ) (sorted : List ℕ)
      → IsAbove from sorted
      → IsOrdered full sorted
      → IsOrdered full (insert_all less (tabulate n (λ j. from + j)) sorted)
  unfolding insert_all
  insert_all-IsOrdered zero from sorted above o = o
  insert_all-IsOrdered (suc n) from sorted above o =
      let shift = tabulate_ext n (λ j. from + suc j) (λ j. from + 1 + j) (λ j p. omega arith) in
      let here : from + 0 ≡ from = omega arith in
      rw (shift, here)
        (insert_all-IsOrdered n (from + 1) (insert less from sorted)
          (IsAbove-insert (from + 1) from sorted (omega arith) (IsAbove-weaken from sorted above))
          (insert-IsOrdered from sorted above o))

IsAhead-ext :
    {p q : ℕ → ℕ → Bool} (x : ℕ) (xs : List ℕ)
    → ((a b : ℕ) → p a b ≡ q a b)
    → IsAhead q x xs
    → IsAhead p x xs
IsAhead-ext x [] e first = tt
IsAhead-ext x (y ∷ ys) e first = (e x y ∙ first.0, IsAhead-ext x ys e first.1)

IsOrdered-ext :
    {p q : ℕ → ℕ → Bool} (xs : List ℕ)
    → ((a b : ℕ) → p a b ≡ q a b)
    → IsOrdered q xs
    → IsOrdered p xs
IsOrdered-ext [] e o = tt
IsOrdered-ext (x ∷ xs) e o = (IsAhead-ext x xs e o.0, IsOrdered-ext xs e o.1)

module _ (less : ℕ → ℕ → Bool) (i : ℕ) where
  occurrences-insert :
      (x : ℕ) (xs : List ℕ) → occurrences i (insert less x xs) ≡ occurrences i (x ∷ xs)
  unfolding insert
  occurrences-insert x [] = refl
  occurrences-insert x (y ∷ ys) = elim (Bool-cases (less x y)) [
    | inl first ↦ rw first
    | inr later ↦ rw later (let rest = occurrences-insert x ys in ground arith)
  ]

  occurrences-insert_all :
      (xs sorted : List ℕ)
      → occurrences i (insert_all less xs sorted) ≡ occurrences i xs + occurrences i sorted
  unfolding insert_all
  occurrences-insert_all [] sorted = omega arith
  occurrences-insert_all (x ∷ xs) sorted =
      let rest = occurrences-insert_all xs (insert less x sorted) in
      let here = occurrences-insert x sorted in ground arith

occurrences-tabulate :
    (n from i : ℕ)
    → occurrences i (tabulate n (λ j. from + j))
      ≡ (if ltb i from then 0 else if ltb i (from + n) then 1 else 0)
occurrences-tabulate zero from i = ground arith
occurrences-tabulate (suc n) from i =
    let rest = occurrences-tabulate n (from + 1) i in
    let shift = tabulate_ext n (λ j. from + suc j) (λ j. from + 1 + j) (λ j p. omega arith) in
    rw (shift, rest) (ground arith)

count_first : (n i : ℕ) → (occurrences i (first_rows n) + 0) ≡ (if ltb i n then 1 else 0)
count_first n i =
    let shift = tabulate_ext n (λ j. j) (λ j. 0 + j) (λ j p. omega arith) in
    let count = occurrences-tabulate n 0 i in rw shift (ground arith)

-- For keys whose boolean columns hold 0 or 1, in the order that Sort makes of n stored rows every
-- row comes before all later ones: by the values in SQL of the keys in turn (NULLs first or last as
-- the key says, whatever its direction, the other values rising or falling, NaN above every
-- number), and by the row number where all keys are equal. Each row number below n stands in the
-- order once, any other never.
pub order_rows-IsOrdered :
    (keys : List Key) (n : ℕ)
    → AllNormal keys
    → IsOrdered (row_before keys) (order_rows keys n)
      × ((i : ℕ) → occurrences i (order_rows keys n) ≡ (if ltb i n then 1 else 0))
unfolding order_rows stable_sort
order_rows-IsOrdered keys n normal =
    let shift = tabulate_ext n (λ j. j) (λ j. 0 + j) (λ j p. omega arith) in
    (
      IsOrdered-ext (order_rows keys n) (λ a b. row_before-comes_before keys a b normal)
          (rw shift (insert_all-IsOrdered (comes_before-IsWeak keys normal) n 0 [] tt tt)),
      λ i. occurrences-insert_all (comes_before keys) i (first_rows n) [] ∙ count_first n i,
    )
