-- ===== src/Statistics/Pruning.antt =====
-- `may_match` (src/statistics.cpp) against the meaning of the predicate on a row.
use vectorized_query_engine.Base.{
  ℕ, ◌≡◌, ◌≢◌, refl, sym, ap, ◌∙◌, Bool, true, false, not, none, some, List, [], ◌∷◌, arith,
  Bool-cases, inl, inr, Option-cases, ◌⊎◌,
}
use vectorized_query_engine.Base.Int.{ltb_ℤ, leb_ℤ, eqb_ℤ}
use vectorized_query_engine.Base.Results.{ok, ◌>>=◌, >>=-eq-ok}
use vectorized_query_engine.Vector.Double.{Arithmetic, lt_double, le_double, eq_double}
use vectorized_query_engine.Vector.Value.{Value, bool, int, real, text, Schema}
use vectorized_query_engine.Expression.{
  ExprKind, column, literal, equal, not_equal, less, less_equal, greater, greater_equal, and, or,
  is_null, ExprPtr, missing, node, eq_text, eq_bool,
}
use vectorized_query_engine.Expression.Scalar.{
  sql_compare, sql_and, sql_or, sql_is_null, relation, lt_bool, lt_text,
}
use vectorized_query_engine.Expression.Meaning.{sql_value}
use vectorized_query_engine.Statistics.{
  ColumnStatistics, Statistics, Predicate, sides, mirrored, is_null_value, predicate_matches,
  literal_matches, null_matches, simple_matches, statistics_of, may_match,
}
use vectorized_query_engine.Statistics.Predicates.{Describes, predicate_lem, some-injective}

and_true : (x y : Value) → sql_and x y ≡ bool true → (x ≡ bool true) × (y ≡ bool true)
and_true x y h = ground arith

or_true : (x y : Value) → sql_or x y ≡ bool true → (x ≡ bool true) ⊎ (y ≡ bool true)
or_true x y h = ground arith

null_true : (x : Value) → sql_is_null x ≡ bool true → is_null_value x ≡ true
null_true x h = ground arith

eq_text_sym : (s t : List ℕ) → eq_text s t ≡ eq_text t s
eq_text_sym [] [] = refl
eq_text_sym [] (y ∷ ys) = refl
eq_text_sym (x ∷ xs) [] = refl
eq_text_sym (x ∷ xs) (y ∷ ys) = ground (arith, eq_text_sym xs ys)

relation_mirror {ℓ} :
    {A : Type ℓ} (eq lt le : A → A → Bool) (k : ExprKind) (a b : A)
    → eq a b ≡ eq b a
    → relation eq lt le k a b ≡ relation eq lt le (mirrored k) b a
relation_mirror eq lt le equal a b h = h
relation_mirror eq lt le not_equal a b h = ap not h
relation_mirror eq lt le _ a b h = refl

-- A comparison with its sides exchanged
mirror : (k : ExprKind) (x y : Value) → sql_compare k x y ≡ sql_compare (mirrored k) y x
mirror k (bool a) (bool b) =
    ap bool (relation_mirror eq_bool lt_bool (λ x y. not (lt_bool y x)) k a b (ground arith))
mirror k (int a) (int b) = ap bool (relation_mirror eqb_ℤ ltb_ℤ leb_ℤ k a b (ground arith))
mirror k (real a) (real b) =
    ap bool (relation_mirror eq_double lt_double le_double k a b (ground arith))
mirror k (text a) (text b) =
    ap bool (relation_mirror eq_text lt_text (λ x y. not (lt_text y x)) k a b (eq_text_sym a b))
mirror k _ _ = ground arith

module _ (m : Arithmetic) (schema : Schema) (stats : Statistics) (env : ℕ → Value)
    (describes : (id : ℕ) (s : ColumnStatistics)
      → statistics_of schema stats id ≡ ok s
      → Describes s (env id)) where
  sides_lem :
      (k : ExprKind) (l r : ExprPtr) (p : Predicate)
      → sides k l r ≡ some p
      → sql_compare k (sql_value m env l) (sql_value m env r)
        ≡ sql_compare p.kind (env p.column) p.value
  unfolding sql_value
  sides_lem k (node column id v t l r) (node literal id' v' t' l' r') p h =
      (let e = some-injective h in rw (← e))
  sides_lem k (node literal id v t l r) (node column id' v' t' l' r') p h =
      (let e = some-injective h in rw (← e) (mirror k v (env id')))
  sides_lem k _ _ p h = cc

  simple_lem :
      (k : ExprKind) (l r : ExprPtr)
      → (elim (sides k l r) [
        | none ↦ ok true
        | some p ↦ (statistics_of schema stats p.column >>= λ s. predicate_matches p s)
      ])
        ≡ ok false
      → sql_compare k (sql_value m env l) (sql_value m env r) ≢ bool true
  simple_lem k l r h c = elim (Option-cases (sides k l r)) [
    | inl e ↦ (let g = rw e at h in cc)
    | inr (p, e) ↦
        let g = rw e at h in
        let (s, es, out) = >>=-eq-ok (statistics_of schema stats p.column) _ g in
        predicate_lem p.column p.kind s (env p.column) p.value (describes p.column s es) out
          (sym (sides_lem k l r p e) ∙ c)
  ]

  null_lem :
      (l : ExprPtr)
      → null_matches l schema stats ≡ ok false
      → sql_is_null (sql_value m env l) ≢ bool true
  unfolding sql_value
  null_lem missing h c = cc
  null_lem (node column id v t l r) h c =
      let (s, es, out) = >>=-eq-ok (statistics_of schema stats id) _ h in
      let d = describes id s es in ground (arith, d.null, null_true (env id) c)
  null_lem _ h c = cc

  literal_lem : (v : Value) → literal_matches v ≡ ok false → v ≢ bool true
  literal_lem (bool b) h c = cc
  literal_lem _ h c = cc

  -- Let each statistics entry that the schema finds for a column ID describe the value of that
  -- column in a row: it lies between the extremes unless it is NULL or NaN, a NaN sets has_nan,
  -- and the NULL count, where it is known, agrees with it. If may_match answers false for an
  -- expression, the expression is not true on that row.
  pub may_match-Sound :
      (e : ExprPtr) → may_match e schema stats ≡ ok false → sql_value m env e ≢ bool true
  unfolding may_match sql_value simple_matches
  may_match-Sound missing h c = cc
  may_match-Sound (node literal id v t l r) h c = literal_lem v h c
  may_match-Sound (node and id v t l r) h c =
      let (x, y) = and_true (sql_value m env l) (sql_value m env r) c in
      let (a, ea, out) = >>=-eq-ok (may_match l schema stats) _ h in
      elim (Bool-cases a) [
        | inl holds_l ↦ may_match-Sound r (rw holds_l at out) y
        | inr fails_l ↦ may_match-Sound l (ea ∙ ap ok fails_l) x
      ]
  may_match-Sound (node or id v t l r) h c =
      let (a, ea, out) = >>=-eq-ok (may_match l schema stats) _ h in
      elim (Bool-cases a) [
        | inl holds_l ↦ (let g = rw holds_l at out in cc)
        | inr fails_l ↦ elim (or_true (sql_value m env l) (sql_value m env r) c) [
          | inl x ↦ may_match-Sound l (ea ∙ ap ok fails_l) x
          | inr y ↦ may_match-Sound r (rw fails_l at out) y
        ]
      ]
  may_match-Sound (node is_null id v t l r) h c = null_lem l h c
  may_match-Sound (node equal id v t l r) h c = simple_lem equal l r h c
  may_match-Sound (node not_equal id v t l r) h c = simple_lem not_equal l r h c
  may_match-Sound (node less id v t l r) h c = simple_lem less l r h c
  may_match-Sound (node less_equal id v t l r) h c = simple_lem less_equal l r h c
  may_match-Sound (node greater id v t l r) h c = simple_lem greater l r h c
  may_match-Sound (node greater_equal id v t l r) h c = simple_lem greater_equal l r h c
  may_match-Sound _ h c = cc
