-- ===== src/Plan/Lower/Pruning.antt =====
-- The pruning predicate that `lower` (src/plan.cpp) gives a scan, and the filters above the scan.
use vectorized_query_engine.Base.{ℕ, ◌≡◌, refl, sym, ap, ◌∙◌, Bool, true, false, ◌&&◌, arith}
use vectorized_query_engine.Base.Results.{ok, >>=-eq-ok, ok-injective}
use vectorized_query_engine.Vector.Double.{Arithmetic}
use vectorized_query_engine.Vector.Value.{DataType, Schema, Value, null, bool, int, real, text}
use vectorized_query_engine.Expression.{ExprKind, ExprPtr, missing, node, expression_type}
use vectorized_query_engine.Expression.Meaning.{sql_value}
use vectorized_query_engine.Statistics.{ColumnStatistics, Statistics, may_match, statistics_of}
use vectorized_query_engine.Statistics.Predicates.{Describes}
use vectorized_query_engine.Statistics.Pruning.{may_match-Sound}
use vectorized_query_engine.Plan.{
  Plan, no_plan, scan, filter, project, aggregate, join, sort, limit, output_schema, Estimator,
  estimated_rows,
}
use vectorized_query_engine.Plan.Rewrite.Predicates.{passes, passes-and}
use vectorized_query_engine.Plan.Rewrite.Chains.{chain_passes}
use vectorized_query_engine.Plan.Lower.{
  PhysicalPlan, column_scan, selection_filter, vector_projection, hash_aggregate, hash_join,
  materialized_sort, limit_rows, conjoin, add_pruning, lower,
}

-- Filters above a scan.
abbrev pub IsOverScan : Plan → Type 0
IsOverScan (scan source columns) = Unit
IsOverScan (filter p e) = IsOverScan p
IsOverScan _ = ⊥

abbrev IsScanChain : PhysicalPlan → Type 0
IsScanChain (column_scan s n source columns e) = Unit
IsScanChain (selection_filter s n p e) = IsScanChain p
IsScanChain _ = ⊥

-- The predicate of the scan at the bottom.
abbrev pub scan_pruning : PhysicalPlan → ExprPtr
scan_pruning (column_scan s n source columns e) = e
scan_pruning (selection_filter s n p e) = scan_pruning p
scan_pruning _ = missing

-- Without a predicate every row passes.
abbrev pruning_passes : Arithmetic → (ℕ → Value) → ExprPtr → Bool
pruning_passes m env missing = true
pruning_passes m env e = passes (sql_value m env e)

no_predicate : (p : Plan) {s : Schema} → output_schema (filter p missing) ≡ ok s → ⊥
unfolding output_schema expression_type
no_predicate p h = let (s', es, k) = >>=-eq-ok (output_schema p) _ h in absurd cc

and_comm : (x y : Bool) → (x && y) ≡ (y && x)
and_comm x y = ground arith

module _ (a : Arithmetic) (env : ℕ → Value) where
  conjoin-Pass :
      (e : ExprPtr) (k : ExprKind) (id : ℕ) (v : Value) (u : DataType) (l r : ExprPtr)
      → pruning_passes a env (conjoin e (node k id v u l r))
        ≡ (pruning_passes a env e && passes (sql_value a env (node k id v u l r)))
  conjoin-Pass missing k id v u l r = refl
  conjoin-Pass (node k' id' v' u' l' r') k id v u l r =
      unfold sql_value in
      passes-and (sql_value a env (node k' id' v' u' l' r')) (sql_value a env (node k id v u l r))

  add_pruning-IsScanChain :
      (q : PhysicalPlan) (e : ExprPtr) → IsScanChain q → IsScanChain (add_pruning q e)
  unfolding add_pruning
  add_pruning-IsScanChain (column_scan s n source columns f) e h = tt
  add_pruning-IsScanChain (selection_filter s n p f) e h = add_pruning-IsScanChain p e h
  add_pruning-IsScanChain (vector_projection _ _ _ _) e h = absurd h
  add_pruning-IsScanChain (hash_aggregate _ _ _ _ _) e h = absurd h
  add_pruning-IsScanChain (hash_join _ _ _ _ _ _ _) e h = absurd h
  add_pruning-IsScanChain (materialized_sort _ _ _ _) e h = absurd h
  add_pruning-IsScanChain (limit_rows _ _ _ _) e h = absurd h

  scan_pruning-add_pruning :
      (q : PhysicalPlan) (e : ExprPtr)
      → IsScanChain q
      → scan_pruning (add_pruning q e) ≡ conjoin (scan_pruning q) e
  unfolding add_pruning
  scan_pruning-add_pruning (column_scan s n source columns f) e h = refl
  scan_pruning-add_pruning (selection_filter s n p f) e h = scan_pruning-add_pruning p e h
  scan_pruning-add_pruning (vector_projection _ _ _ _) e h = absurd h
  scan_pruning-add_pruning (hash_aggregate _ _ _ _ _) e h = absurd h
  scan_pruning-add_pruning (hash_join _ _ _ _ _ _ _) e h = absurd h
  scan_pruning-add_pruning (materialized_sort _ _ _ _) e h = absurd h
  scan_pruning-add_pruning (limit_rows _ _ _ _) e h = absurd h

  lower-Prunes :
      (m : Estimator) (p : Plan) {q : PhysicalPlan}
      → IsOverScan p
      → lower m p ≡ ok q
      → IsScanChain q × (pruning_passes a env (scan_pruning q) ≡ chain_passes a env p)
  unfolding lower
  lower-Prunes m (scan source columns) h e =
      let (s, es, k) = >>=-eq-ok (output_schema (scan source columns)) _ e in
      let (n, en, k') = >>=-eq-ok (estimated_rows m (scan source columns)) _ k in
      (let f = ok-injective k' in rw (← f) (tt, refl))
  lower-Prunes m (filter p missing) h e =
      let (s, es, k) = >>=-eq-ok (output_schema (filter p missing)) _ e in
      absurd (no_predicate p es)
  lower-Prunes m (filter p (node c id v u l r)) {q} h e =
      let f = node c id v u l r in
      let (s, es, k) = >>=-eq-ok (output_schema (filter p f)) _ e in
      let (n, en, k') = >>=-eq-ok (estimated_rows m (filter p f)) _ k in
      let (b, eb, k'') = >>=-eq-ok (lower m p) _ k' in
      let (chain, same) = lower-Prunes m p h eb in
      let here = ok-injective k'' in
      let shape = scan_pruning-add_pruning b f chain in
      rw (← here) (
        add_pruning-IsScanChain b f chain,
        ap (pruning_passes a env) shape
            ∙ conjoin-Pass (scan_pruning b) c id v u l r
            ∙ ap (λ x. x && passes (sql_value a env f)) same
            ∙ and_comm (chain_passes a env p) (passes (sql_value a env f)),
      )
  lower-Prunes m no_plan h e = absurd h
  lower-Prunes m (limit p n) h e = absurd h
  lower-Prunes m (project p es) h e = absurd h
  lower-Prunes m (aggregate p keys aggs) h e = absurd h
  lower-Prunes m (join l r keys right_keys) h e = absurd h
  lower-Prunes m (sort p keys) h e = absurd h

  -- Let lower turn filters above a scan into a physical plan, and let each statistics entry that
  -- the schema finds for a column ID describe a row's value of that column. If may_match answers
  -- false for the pruning predicate that the scan has been given, some filter does not let the row
  -- through.
  pub lower-Skips :
      (m : Estimator) (p : Plan) {q : PhysicalPlan} (schema : Schema) (stats : Statistics)
      → ((id : ℕ) (s : ColumnStatistics)
          → statistics_of schema stats id ≡ ok s
          → Describes s (env id))
      → IsOverScan p
      → lower m p ≡ ok q
      → may_match (scan_pruning q) schema stats ≡ ok false
      → chain_passes a env p ≡ false
  unfolding may_match
  lower-Skips m p {q} schema stats describes h e skipped =
      let (chain, same) = lower-Prunes m p h e in
      let fails = may_match-Sound a schema stats env describes (scan_pruning q) skipped in
      sym same ∙ not_true (scan_pruning q) skipped fails
    where
      falls : (v : Value) → (v ≡ bool true → ⊥) → passes v ≡ false
      falls (bool true) f = absurd (f refl)
      falls (bool false) f = refl
      falls null f = refl
      falls (int z) f = refl
      falls (real z) f = refl
      falls (text z) f = refl

      not_true :
          (e : ExprPtr)
          → may_match e schema stats ≡ ok false
          → (sql_value a env e ≡ bool true → ⊥)
          → pruning_passes a env e ≡ false
      not_true missing skipped fails = cc
      not_true (node k id v u l r) skipped fails = falls (sql_value a env (node k id v u l r)) fails
