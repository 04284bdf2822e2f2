-- ===== src/Plan/Rewrite/Substitution.antt =====
-- `substitute` (src/plan.cpp): a predicate above a projection, in terms of the columns below it.
use vectorized_query_engine.Base.{
  ℕ, ◌≡◌, refl, sym, ap, ◌∙◌, true, false, none, some, List, [], ◌∷◌, ◌++◌, inl, inr, Option-cases,
}
use vectorized_query_engine.Base.Results.{ok}
use vectorized_query_engine.Vector.Double.{Arithmetic}
use vectorized_query_engine.Vector.Value.{Value, null, int64}
use vectorized_query_engine.Expression.{
  column, literal, negation, is_null, ExprPtr, missing, node, referenced_columns,
}
use vectorized_query_engine.Expression.Scalar.{sql_not, sql_is_null}
use vectorized_query_engine.Expression.Meaning.{sql_operator, sql_value}
use vectorized_query_engine.Expression.Typing.{IsBuilt}
use vectorized_query_engine.Plan.Rewrite.{ColumnMap, lookup, substitute, all_mapped}

-- The row above the projection, from the row below it.
abbrev pub projected : Arithmetic → (ℕ → Value) → ColumnMap → ℕ → Value
projected m env map id = elim (lookup map id) [ none ↦ null | some e ↦ sql_value m env e ]

mapped-first :
    (map : ColumnMap) (x : ℕ) (xs : List ℕ) {e : ExprPtr}
    → lookup map x ≡ some e
    → all_mapped map (x ∷ xs) ≡ all_mapped map xs
mapped-first map x xs h = rw (all_mapped, h)

mapped-some :
    (map : ColumnMap) (x : ℕ) (xs : List ℕ)
    → all_mapped map (x ∷ xs) ≡ true
    → (e : ExprPtr) × (lookup map x ≡ some e)
mapped-some map x xs h = elim (Option-cases (lookup map x)) [
  | inr found ↦ found
  | inl gone ↦ absurd (let e : all_mapped map (x ∷ xs) ≡ false = rw (all_mapped, gone) in cc)
]

all_mapped-append :
    (map : ColumnMap) (xs ys : List ℕ)
    → all_mapped map (xs ++ ys) ≡ true
    → (all_mapped map xs ≡ true) × (all_mapped map ys ≡ true)
all_mapped-append map [] ys h = (refl, h)
all_mapped-append map (x ∷ xs) ys h =
    let (e, found) = mapped-some map x (xs ++ ys) h in
    let (hx, hy) = all_mapped-append map xs ys (sym (mapped-first map x (xs ++ ys) found) ∙ h) in
    (mapped-first map x xs found ∙ hx, hy)

module _ (m : Arithmetic) (env : ℕ → Value) (map : ColumnMap) where
  -- For an expression that the factory functions build, and a map that has an entry for each column
  -- it reads, substitute returns an expression. Its value in SQL on a row is the value of the old
  -- one on the row that gives each column the value of the map's entry.
  pub substitute-Means :
      (e : ExprPtr)
      → IsBuilt e
      → all_mapped map (referenced_columns e) ≡ true
      → (e' : ExprPtr) × (substitute map e ≡ ok e')
        × (sql_value m env e' ≡ sql_value m (projected m env map) e)
  unfolding substitute referenced_columns sql_value
  substitute-Means missing built h = absurd built
  substitute-Means (node column id v t missing missing) built h =
      let (e, found) = mapped-some map id [] h in (e, rw (substitute, found), rw (projected, found))
  substitute-Means (node literal id v t missing missing) built h =
      (node literal id v t missing missing, refl, refl)
  substitute-Means (node column id v t _ _) built h = absurd built
  substitute-Means (node literal id v t _ _) built h = absurd built
  substitute-Means (node negation id v t l missing) built h =
      let (a, ea, same) =
        substitute-Means l built (all_mapped-append map (referenced_columns l) [] h).0 in
      (node negation 0 null int64 a missing, rw ea, ap sql_not same)
  substitute-Means (node is_null id v t l missing) built h =
      let (a, ea, same) =
        substitute-Means l built (all_mapped-append map (referenced_columns l) [] h).0 in
      (node is_null 0 null int64 a missing, rw ea, ap sql_is_null same)
  substitute-Means (node negation id v t l (node _ _ _ _ _ _)) built h = absurd built
  substitute-Means (node is_null id v t l (node _ _ _ _ _ _)) built h = absurd built
  substitute-Means (node k id v t l missing) built h = absurd built.1
  substitute-Means (node k id v t l (node k' id' v' t' l' r')) built h =
      let r = node k' id' v' t' l' r' in
      let (hl, hr) = all_mapped-append map (referenced_columns l) (referenced_columns r) h in
      let (a, ea, sa) = substitute-Means l built.0 hl in
      let (b, eb, sb) = substitute-Means (node k' id' v' t' l' r') built.1 hr in
      (
        node k 0 null int64 a b,
        rw (ea, eb),
        ap (λ x. sql_operator m k x (sql_value m env b)) sa
            ∙ ap (λ y. sql_operator m k (sql_value m (projected m env map) l) y) sb,
      )
