-- ===== src/Operators/Rows.antt =====
-- The rows that a selection lists, and those that Filter leaves in a batch (src/operators.cpp).
use vectorized_query_engine.Base.{
  ℕ, ◌+◌, ◌%◌, ◌^◌, ◌≤◌, ◌<◌, ◌≡◌, refl, ap, Bool, false, List, [], ◌∷◌, ◌++◌, leb, ◌==◌, get_or,
  length, tabulate, if◌then◌else◌, arith, Bool-cases, inl, inr, length-append,
}
use mathlib.Core.List.{append-nil, append_assoc}
use vectorized_query_engine.Base.Results.{ok, ◌>>=◌}
use vectorized_query_engine.Vector.Value.{Value, bool}
use vectorized_query_engine.Vector.Validity
use vectorized_query_engine.Vector.Selection.{Selection, max_batch_size, at, push, clear}
use vectorized_query_engine.Vector.Column.{Column, value}
use vectorized_query_engine.Expression.Evaluator.{is_true, byte_data}
use vectorized_query_engine.Expression.Evaluator.Logic.{IsBools, bytes_of, Below}
use vectorized_query_engine.Expression.Evaluator.Rows.{contains_head, contains_tail}
use vectorized_query_engine.Operators.{filter_rows}

-- The rows of a selection, in order.
unfoldable pub rows_of : Selection → List ℕ
rows_of s = tabulate s.size (at s)

abbrev pub holds : Value → Bool
holds (bool b) = b
holds _ = false

-- The rows where the predicate is true, in order: not those where it is false or NULL.
unfoldable pub passing : Column → List ℕ → List ℕ
passing p [] = []
passing p (i ∷ rows) = let rest = passing p rows in if holds (value p i) then i ∷ rest else rest

-- What a loop of pushes starts from and ends with.
abbrev pub sparse : List ℕ → Selection
sparse xs = record { dense = false; size = length xs; indices = xs }

push-sparse :
    (xs : List ℕ) (i : ℕ)
    → i < max_batch_size
    → length xs < max_batch_size
    → push (sparse xs) i ≡ ok (sparse (xs ++ i ∷ []))
unfolding push
push-sparse xs i h k =
    let small : leb max_batch_size i ≡ false = ground arith in
    let room : (length xs == max_batch_size) ≡ false = ground arith in
    let same : i % 2 ^ 16 ≡ i = omega arith in rw (small, room, same, length-append)

tabulate-get_or : (xs : List ℕ) → tabulate (length xs) (λ i. get_or xs i 0) ≡ xs
tabulate-get_or [] = refl
tabulate-get_or (x ∷ xs) = ap (λ l. x ∷ l) (tabulate-get_or xs)

rows_of-sparse : (xs : List ℕ) → rows_of (sparse xs) ≡ xs
unfolding rows_of at
rows_of-sparse xs = tabulate-get_or xs

module _ {p : Column} {n : ℕ} (predicate : IsBools p n) where
  -- Whether a row stays, as the code finds it out.
  row_test :
      (i : ℕ)
      → (if Validity.valid p.validity i then (byte_data p >>= λ d. ok (is_true d i)) else ok false)
        ≡ ok (holds (value p i))
  row_test i = let (d, e, l) = bytes_of p n predicate in unfold value in rw e (ground arith)

  pushes :
      (rows xs : List ℕ)
      → Below rows max_batch_size
      → length xs + length rows ≤ max_batch_size
      → filter_rows p rows (sparse xs) ≡ ok (sparse (xs ++ passing p rows))
  unfolding filter_rows passing
  pushes [] xs below room = rw append-nil
  pushes (i ∷ rows) xs below room =
      let rest = pushes rows in
      let later : Below rows max_batch_size = (λ k h. below k (contains_tail i k rows h)) in
      elim (Bool-cases (holds (value p i))) [
        | inl keeps ↦
            rw (row_test i, keeps, push-sparse xs i (below i (contains_head i rows)) (omega arith))
              (rw (append_assoc xs (i ∷ []) (passing p rows)) at
                (rest (xs ++ i ∷ []) later (rw length-append (omega arith))))
        | inr drops ↦ rw (row_test i, drops) (rest xs later (omega arith))
      ]

  -- For a boolean predicate column and a batch of at most 65535 listed rows, each below 65535, the
  -- loop of Filter on a cleared selection returns a selection of exactly the rows where the
  -- predicate is true, in their order.
  pub filter_rows-Keeps :
      (rows : List ℕ) (s : Selection)
      → Below rows max_batch_size
      → length rows ≤ max_batch_size
      → (r : Selection) × (filter_rows p rows (clear s) ≡ ok r) × (rows_of r ≡ passing p rows)
  filter_rows-Keeps rows s below room = (
    sparse (passing p rows),
    unfold clear in pushes rows [] below (omega arith),
    rows_of-sparse (passing p rows),
  )
