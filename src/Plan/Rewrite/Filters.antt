-- ===== src/Plan/Rewrite/Filters.antt =====
-- `rewrite` (src/plan.cpp) of a chain of filters above a scan: the new chain lets the same
-- rows through.
use vectorized_query_engine.Base.{
  ℕ, zero, suc, ◌≤◌, ◌≡◌, refl, ap, ◌∙◌, true, ◌&&◌, Option, none, some, List, [], ◌∷◌, ◌++◌, arith,
}
use mathlib.Core.List.{append_assoc, append-nil}
use vectorized_query_engine.Base.Sorting.{stable_sort}
use vectorized_query_engine.Base.Results.{Result, ok}
use vectorized_query_engine.Vector.Double.{lt_double}
use vectorized_query_engine.Vector.Value.{Schema, Value}
use vectorized_query_engine.Expression.{ExprPtr}
use vectorized_query_engine.Expression.Meaning.{sql_value}
use vectorized_query_engine.Expression.Typing.Values.{IsRow}
use vectorized_query_engine.Expression.Evaluator.{Setting}
use vectorized_query_engine.Plan.{
  Plan, no_plan, scan, filter, project, aggregate, join, sort, limit, Estimator, selectivity,
}
use vectorized_query_engine.Plan.Simplify.Sound.{simplify-Gives}
use vectorized_query_engine.Plan.Rewrite.{
  conjuncts, filters, push, push_all, build_filters, rewrite_filters, rewrite,
}
use vectorized_query_engine.Plan.Rewrite.Predicates.{
  passes, and-true, all_pass, AllExact, all_pass-append, conjuncts-Pass, distinct-Pass,
  stable_sort-Pass,
}
use vectorized_query_engine.Plan.Rewrite.Chains.{
  chain_passes, bottom, IsChain, height, short, swap, AllTyped, AllTyped-append, AllExact-append,
  conjuncts-AllTyped, conjuncts-AllExact, distinct-returns, insert_all-keeps, distinct-keeps,
}

module _ (m : Estimator) (g : Setting) (s : Schema) (env : ℕ → Value) (row : IsRow s env) where
  -- The conjuncts of the simplified predicates of a chain.
  filters-Pass :
      (p : Plan)
      → IsChain s p
      → (es : List ExprPtr) × (filters g p ≡ ok (bottom p, es))
        × AllTyped s es
        × AllExact es
        × (all_pass g.arithmetic env es ≡ chain_passes g.arithmetic env p)
  unfolding filters
  filters-Pass no_plan h = absurd h
  filters-Pass (scan source columns) h = ([], refl, tt, tt, refl)
  filters-Pass (limit p n) h = absurd h
  filters-Pass (project p es) h = absurd h
  filters-Pass (aggregate p keys aggs) h = absurd h
  filters-Pass (join l r keys right_keys) h = absurd h
  filters-Pass (sort p keys) h = absurd h
  filters-Pass (filter p e) (typed, fit, exact, rest) =
      let (e', ee, f) = simplify-Gives g s env row typed fit exact in
      let (es, ef, te, xe, pass) = filters-Pass p rest in
      let a = g.arithmetic in
      (
        conjuncts e' ++ es,
        rw (ee, ef),
        AllTyped-append s (conjuncts e') es (conjuncts-AllTyped s e' f.typed f.fit) te,
        AllExact-append (conjuncts e') es (conjuncts-AllExact e' f.exact) xe,
        all_pass-append a env (conjuncts e') es
            ∙ ap (λ x. x && all_pass a env es) (conjuncts-Pass a env e' ∙ ap passes f.same)
            ∙ ap (λ x. passes (sql_value a env e) && x) pass,
      )

  -- Nothing is pushed below a scan.
  push-stays :
      (again : Plan → Result (Option Plan)) (p : Plan) (e : ExprPtr)
      → IsChain s p
      → push again (bottom p) e ≡ ok (some none)
  unfolding push
  push-stays again no_plan e h = absurd h
  push-stays again (scan source columns) e h = refl
  push-stays again (limit p n) e h = absurd h
  push-stays again (project p es) e h = absurd h
  push-stays again (aggregate p keys aggs) e h = absurd h
  push-stays again (join l r keys right_keys) e h = absurd h
  push-stays again (sort p keys) e h = absurd h
  push-stays again (filter p f) e h = push-stays again p e h.3

  push_all-stays :
      (again : Plan → Result (Option Plan)) (p : Plan) (es remaining : List ExprPtr)
      → IsChain s p
      → push_all again (bottom p) es remaining ≡ ok (some (bottom p, remaining ++ es))
  unfolding push_all
  push_all-stays again p [] remaining h = rw append-nil
  push_all-stays again p (e ∷ es) remaining h = rw (push-stays again p e h) (
      push_all-stays again p es (remaining ++ e ∷ []) h
      ∙ ap (λ x. ok (some (bottom p, x))) (append_assoc remaining (e ∷ []) es))

  build_filters-bottom : (es : List ExprPtr) (p : Plan) → bottom (build_filters p es) ≡ bottom p
  unfolding build_filters
  build_filters-bottom [] p = refl
  build_filters-bottom (e ∷ es) p = build_filters-bottom es (filter p e)

  build_filters-Pass :
      (es : List ExprPtr) (p : Plan)
      → chain_passes g.arithmetic env (build_filters p es)
        ≡ (all_pass g.arithmetic env es && chain_passes g.arithmetic env p)
  unfolding build_filters
  build_filters-Pass [] p = refl
  build_filters-Pass (e ∷ es) p =
      let rest = build_filters-Pass es (filter p e) in
      rest
      ∙ swap (all_pass g.arithmetic env es) (passes (sql_value g.arithmetic env e))
          (chain_passes g.arithmetic env p)

  bottom_passes : (p : Plan) → IsChain s p → chain_passes g.arithmetic env (bottom p) ≡ true
  bottom_passes no_plan h = absurd h
  bottom_passes (scan source columns) h = refl
  bottom_passes (limit p n) h = absurd h
  bottom_passes (project p es) h = absurd h
  bottom_passes (aggregate p keys aggs) h = absurd h
  bottom_passes (join l r keys right_keys) h = absurd h
  bottom_passes (sort p keys) h = absurd h
  bottom_passes (filter p e) h = bottom_passes p h.3

  bottom-bottom : (p : Plan) → bottom (bottom p) ≡ bottom p
  bottom-bottom (filter p e) = bottom-bottom p
  bottom-bottom _ = refl

  build_filters-IsChain :
      (es : List ExprPtr) (p : Plan)
      → AllTyped s es × AllExact es
      → IsChain s p
      → IsChain s (build_filters p es)
  unfolding build_filters
  build_filters-IsChain [] p h k = k
  build_filters-IsChain (e ∷ es) p ((te, fe, ts), (xe, xs)) k =
      build_filters-IsChain es (filter p e) (ts, xs) (te, fe, xe, k)

  bottom-IsChain : (p : Plan) → IsChain s p → IsChain s (bottom p)
  bottom-IsChain (filter p e) h = bottom-IsChain p h.3
  bottom-IsChain (scan source columns) h = tt
  bottom-IsChain no_plan h = absurd h
  bottom-IsChain (limit p n) h = absurd h
  bottom-IsChain (project p es) h = absurd h
  bottom-IsChain (aggregate p keys aggs) h = absurd h
  bottom-IsChain (join l r keys right_keys) h = absurd h
  bottom-IsChain (sort p keys) h = absurd h

  -- A chain with the same rows, above the same scan.
  abbrev Same : Plan → Plan → Type 0
  Same p p' =
      IsChain s p'
      × (bottom p' ≡ bottom p)
      × (chain_passes g.arithmetic env p' ≡ chain_passes g.arithmetic env p)

  rewrite_filters-Same :
      (again : Plan → Result (Option Plan)) (p : Plan)
      → IsChain s p
      → (p' : Plan) × (rewrite_filters m g again p ≡ ok (some p')) × Same p p'
  unfolding rewrite_filters stable_sort
  rewrite_filters-Same again p h =
      let a = g.arithmetic in
      let (es, ef, te, xe, pass) = filters-Pass p h in
      let (us, eu) = distinct-returns s [] es te in
      let less =
        λ (x y : ExprPtr). lt_double (selectivity m x (bottom p)) (selectivity m y (bottom p)) in
      let in_order = stable_sort less us in
      let good =
        insert_all-keeps s less us [] (distinct-keeps s [] es (tt, tt) (te, xe) eu) (tt, tt) in
      (
        build_filters (bottom p) in_order,
        rw (ef, eu, push_all-stays again p us [] h),
        (
          build_filters-IsChain in_order (bottom p) good (bottom-IsChain p h),
          build_filters-bottom in_order (bottom p) ∙ bottom-bottom p,
          build_filters-Pass in_order (bottom p)
              ∙ ap (λ x. all_pass a env in_order && x) (bottom_passes p h)
              ∙ and-true (all_pass a env in_order)
              ∙ stable_sort-Pass a env less us
              ∙ distinct-Pass a env [] es tt xe eu
              ∙ pass,
        ),
      )

  -- Take filters above a scan, whose predicates are typed as boolean, with literals of their types
  -- and no double among them, and a row with NULL or a value of its type in each column. With as
  -- much fuel as the plan has nodes, rewrite returns a plan: filters of that kind again, above the
  -- same scan, which all let the row through exactly where all the old ones do.
  pub rewrite-Keeps :
      (fuel : ℕ) (p : Plan)
      → height p ≤ fuel
      → IsChain s p
      → (p' : Plan) × (rewrite m g fuel p ≡ ok (some p')) × Same p p'
  unfolding rewrite
  rewrite-Keeps zero p enough h = absurd (short p enough)
  rewrite-Keeps (suc fuel) (scan source columns) enough h =
      (scan source columns, refl, (tt, refl, refl))
  rewrite-Keeps (suc fuel) (filter p e) enough (te, fe, xe, h) =
      let (p', ep, (hp, bp, cp)) = rewrite-Keeps fuel p (omega arith) h in
      let (q, eq, (hq, bq, cq)) =
        rewrite_filters-Same (rewrite m g fuel) (filter p' e) (te, fe, xe, hp) in
      (q, rw ep eq, (hq, bq ∙ bp, cq ∙ ap (λ x. passes (sql_value g.arithmetic env e) && x) cp))
  rewrite-Keeps (suc fuel) no_plan enough h = absurd h
  rewrite-Keeps (suc fuel) (limit p n) enough h = absurd h
  rewrite-Keeps (suc fuel) (project p es) enough h = absurd h
  rewrite-Keeps (suc fuel) (aggregate p keys aggs) enough h = absurd h
  rewrite-Keeps (suc fuel) (join l r keys right_keys) enough h = absurd h
  rewrite-Keeps (suc fuel) (sort p keys) enough h = absurd h
