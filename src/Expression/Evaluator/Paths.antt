-- ===== src/Expression/Evaluator/Paths.antt =====
-- The two kernel paths of `evaluate` (src/expression.cpp), for a dense batch with no NULL operand.
use vectorized_query_engine.Base.{
  ℕ, zero, suc, ◌≤◌, ◌<◌, ◌≡◌, ◌∙◌, true, List, [], ◌∷◌, get_or, arith, inl, inr, Bool-cases,
  tabulate, ◌==◌,
}
use vectorized_query_engine.Base.Int.{ℤ}
use vectorized_query_engine.Base.Results.{ok}
use vectorized_query_engine.Kernels.{less_scalar, less_i64_constant, add_f64}
use vectorized_query_engine.Kernels.Lanes.{
  less_i64_constant-eq, add_f64-eq, get_or-less_scalar, get_or-add_scalar, length-less_scalar,
  length-add_scalar,
}
use vectorized_query_engine.Vector.Batch
use vectorized_query_engine.Vector.Batch.{Batch}
use vectorized_query_engine.Vector.Selection
use vectorized_query_engine.Vector.Column.{Column, bytes8, doubles, value}
use vectorized_query_engine.Vector.Value.{int, contains}
use vectorized_query_engine.Expression.{less, add}
use vectorized_query_engine.Expression.Scalar.{sql_compare, sql_arithmetic}
use vectorized_query_engine.Expression.Evaluator.{Setting, less_path, add_path, active}
use vectorized_query_engine.Expression.Evaluator.Logic.{IsBools, bytes_of, flag-bool}
use vectorized_query_engine.Expression.Evaluator.Numbers.{IsInts, ints_of}
use vectorized_query_engine.Expression.Evaluator.Plain.{IsPlain}
use vectorized_query_engine.Expression.Evaluator.Reals.{IsReals, reals_of, AllValid}

contains-tabulate :
    (n : ℕ) (f : ℕ → ℕ) (i : ℕ) → contains i (tabulate n f) ≡ true → (j : ℕ) × (j < n) × (f j ≡ i)
contains-tabulate zero f i h = cc
contains-tabulate (suc n) f i h = elim (Bool-cases (f 0 == i)) [
  | inl hit ↦ (0, omega arith, ground arith)
  | inr miss ↦
      let (j, p, e) = contains-tabulate n (λ k. f (suc k)) i (rw miss at h) in
      (suc j, omega arith, e)
]

-- The rows of a dense selection are the first ones.
pub dense_row :
    (b : Batch) (i : ℕ) → b.selection.dense ≡ true → contains i (active b) ≡ true → i < Batch.size b
unfolding Selection.at
dense_row b i dense h =
    let (j, p, e) = contains-tabulate (Batch.size b) (Selection.at b.selection) i h in
    omega (arith, (rw dense at e))

less_plain :
    (xs : List ℤ) (c : ℤ) (os : List ℕ) (n i : ℕ)
    → ((j : ℕ) → get_or os j 0 ≤ 1)
    → get_or (less_scalar xs c os n) i 0 ≤ 1
unfolding less_scalar
less_plain (x ∷ xs) c (o ∷ os) (suc n) zero h = ground arith
less_plain (x ∷ xs) c (o ∷ os) (suc n) (suc i) h = less_plain xs c os n i (λ j. h (suc j))
less_plain [] c os n i h = h i
less_plain (x ∷ xs) c [] n i h = h i
less_plain (x ∷ xs) c (o ∷ os) zero i h = h i

pub less_path_lem :
    {a out : Column} {n : ℕ} (g : Setting) (rows : ℕ) (c : ℤ)
    → IsInts a n
    → AllValid a n
    → IsBools out n
    → AllValid out n
    → IsPlain out.payload
    → rows ≤ n
    → (r : Column) × (less_path g rows (int c) a out ≡ ok r)
      × IsBools r n
      × IsPlain r.payload
      × ((i : ℕ) → i < rows → value r i ≡ sql_compare less (value a i) (int c))
less_path_lem {a} {out} {n} g rows c sa fa so fo plain h =
    let (xs, ea, la) = ints_of a n sa in
    let (dest, eo, lo) = bytes_of out n so in
    let written = less_i64_constant g.machine g.mode xs c dest rows in
    let scalar = less_i64_constant-eq g.machine g.mode xs c dest rows in
    let r : Column = record out { payload = bytes8 written } in
    (
      r,
      unfold less_path in rw (ea, eo),
      (
        record {
          mask = so.0.mask;
          counted = so.0.counted;
          typed = rw so.1 tt;
          rows = rw scalar (length-less_scalar xs c dest rows ∙ lo);
        },
        so.1,
      ),
      λ i. rw scalar (less_plain xs c dest rows i (rw eo at plain)),
      λ i p.
          let cell = get_or-less_scalar xs c dest rows i (omega arith) (omega arith) p in
          unfold value in rw (fa i (omega arith), fo i (omega arith), ea, scalar, cell, flag-bool),
    )

pub add_path_lem :
    {a b out : Column} {n : ℕ} (g : Setting) (rows : ℕ)
    → IsReals a n
    → AllValid a n
    → IsReals b n
    → AllValid b n
    → IsReals out n
    → AllValid out n
    → rows ≤ n
    → (r : Column) × (add_path g rows a b out ≡ ok r)
      × IsReals r n
      × IsPlain r.payload
      × ((i : ℕ) → i < rows → value r i ≡ sql_arithmetic g.arithmetic add (value a i) (value b i))
add_path_lem {a} {b} {out} {n} g rows sa fa sb fb so fo h =
    let (xs, ea, la) = reals_of a n sa in
    let (ys, eb, lb) = reals_of b n sb in
    let (dest, eo, lo) = reals_of out n so in
    let written = add_f64 g.arithmetic g.machine g.mode xs ys dest rows in
    let scalar = add_f64-eq g.arithmetic g.machine g.mode xs ys dest rows in
    let r : Column = record out { payload = doubles written } in
    (
      r,
      unfold add_path in rw (ea, eb, eo),
      (
        record {
          mask = so.0.mask;
          counted = so.0.counted;
          typed = rw so.1 tt;
          rows = rw scalar (length-add_scalar g.arithmetic xs ys dest rows ∙ lo);
        },
        so.1,
      ),
      tt,
      λ i p.
          let cell =
            get_or-add_scalar g.arithmetic xs ys dest rows i (omega arith) (omega arith)
              (omega arith) p in
          unfold value in
          rw (fa i (omega arith), fb i (omega arith), fo i (omega arith), ea, eb, scalar, cell),
    )
