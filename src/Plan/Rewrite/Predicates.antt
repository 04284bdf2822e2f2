-- ===== src/Plan/Rewrite/Predicates.antt =====
-- The predicates of a chain of filters (src/plan.cpp): split, thinned out and put in order, they let
-- the same rows through.
use vectorized_query_engine.Base.{
  ℕ, ◌≡◌, refl, sym, ap, ◌∙◌, Bool, true, false, ◌&&◌, List, [], ◌∷◌, ◌++◌, arith, inl, inr,
  Bool-cases,
}
use vectorized_query_engine.Base.Sorting.{insert, insert_all, stable_sort}
use vectorized_query_engine.Base.Results.{ok, >>=-eq-ok, ok-injective}
use vectorized_query_engine.Vector.Double.{Arithmetic}
use vectorized_query_engine.Vector.Value.{Value, null, bool, int, real, text}
use vectorized_query_engine.Expression.{literal, and, ExprPtr, missing, node, expression_equal}
use vectorized_query_engine.Expression.Scalar.{sql_and}
use vectorized_query_engine.Expression.Meaning.{sql_value}
use vectorized_query_engine.Plan.Rewrite.{conjuncts, always_true, any_equal, distinct}
use vectorized_query_engine.Plan.Simplify.Equal.{expression_equal-value}
use vectorized_query_engine.Expression.Typing.Constant.{NoReals}

-- A filter lets a row through whose predicate is TRUE: neither FALSE nor NULL.
abbrev pub passes : Value → Bool
passes (bool b) = b
passes _ = false

abbrev pub all_pass : Arithmetic → (ℕ → Value) → List ExprPtr → Bool
all_pass m env [] = true
all_pass m env (e ∷ es) = passes (sql_value m env e) && all_pass m env es

abbrev pub AllExact : List ExprPtr → Type 0
AllExact [] = Unit
AllExact (e ∷ es) = NoReals e × AllExact es

pub passes-and : (a b : Value) → passes (sql_and a b) ≡ (passes a && passes b)
passes-and a b = ground arith

pub and-true : (b : Bool) → (b && true) ≡ b
and-true b = ground arith

and_assoc : (a b c : Bool) → (a && (b && c)) ≡ ((a && b) && c)
and_assoc a b c = ground arith

twice : (a b : Bool) → (a && b) ≡ ((a && b) && a)
twice a b = ground arith

module _ (m : Arithmetic) (env : ℕ → Value) where
  pub all_pass-append :
      (xs ys : List ExprPtr) → all_pass m env (xs ++ ys) ≡ (all_pass m env xs && all_pass m env ys)
  all_pass-append [] ys = refl
  all_pass-append (x ∷ xs) ys = (let rest = all_pass-append xs ys in ground arith)

  -- About conjuncts.
  pub conjuncts-Pass : (e : ExprPtr) → all_pass m env (conjuncts e) ≡ passes (sql_value m env e)
  unfolding conjuncts sql_value
  conjuncts-Pass missing = refl
  conjuncts-Pass (node and id v t l r) =
      all_pass-append (conjuncts l) (conjuncts r)
      ∙ ap (λ x. x && all_pass m env (conjuncts r)) (conjuncts-Pass l)
      ∙ ap (λ x. passes (sql_value m env l) && x) (conjuncts-Pass r)
      ∙ sym (passes-and (sql_value m env l) (sql_value m env r))
  conjuncts-Pass (node _ id v t l r) = and-true _

  -- What is always true lets every row through.
  always_true-Passes : (e : ExprPtr) → always_true e ≡ ok true → passes (sql_value m env e) ≡ true
  unfolding sql_value
  always_true-Passes missing h = cc
  always_true-Passes (node literal id null t l r) h = cc
  always_true-Passes (node literal id (bool b) t l r) h = ok-injective h
  always_true-Passes (node literal id (int z) t l r) h = cc
  always_true-Passes (node literal id (real z) t l r) h = cc
  always_true-Passes (node literal id (text z) t l r) h = cc
  always_true-Passes (node _ id v t l r) h = cc

  -- A predicate that is there already adds nothing.
  any_equal-Pass :
      (us : List ExprPtr) (e : ExprPtr)
      → AllExact us
      → any_equal us e ≡ true
      → all_pass m env us ≡ (all_pass m env us && passes (sql_value m env e))
  any_equal-Pass [] e x h = cc
  any_equal-Pass (u ∷ us) e x h = elim (Bool-cases (expression_equal u e)) [
    | inl same ↦
        let value = expression_equal-value m env u e x.0 same in
        rw value (twice (passes (sql_value m env e)) (all_pass m env us))
    | inr differ ↦
        let rest = any_equal-Pass us e x.1 (rw differ at h) in
        ap (λ y. passes (sql_value m env u) && y) rest
        ∙ and_assoc (passes (sql_value m env u)) (all_pass m env us) (passes (sql_value m env e))
  ]

  all_pass-snoc :
      (us : List ExprPtr) (e : ExprPtr)
      → all_pass m env (us ++ e ∷ []) ≡ (all_pass m env us && passes (sql_value m env e))
  all_pass-snoc us e =
      all_pass-append us (e ∷ [])
      ∙ ap (λ x. all_pass m env us && x) (and-true (passes (sql_value m env e)))

  AllExact-snoc :
      (us : List ExprPtr) (e : ExprPtr) → AllExact us → NoReals e → AllExact (us ++ e ∷ [])
  AllExact-snoc [] e x xe = (xe, tt)
  AllExact-snoc (u ∷ us) e x xe = (x.0, AllExact-snoc us e x.1 xe)

  -- About the loop that drops predicates.
  pub distinct-Pass :
      (us es : List ExprPtr) {out : List ExprPtr}
      → AllExact us
      → AllExact es
      → distinct us es ≡ ok out
      → all_pass m env out ≡ (all_pass m env us && all_pass m env es)
  unfolding distinct
  distinct-Pass us [] xu xe h = (let f = ok-injective h in rw (← f) (sym (and-true _)))
  distinct-Pass us (e ∷ es) {out} xu xe h =
      let (skip, ek, rest) = >>=-eq-ok (always_true e) _ h in
      elim (Bool-cases skip) [
        | inl drop ↦
            let next = distinct-Pass us es xu xe.1 (rw drop at rest) in
            let true_here = always_true-Passes e (ek ∙ ap ok drop) in rw true_here next
        | inr keep ↦ elim (Bool-cases (any_equal us e)) [
          | inl again ↦
              let next = distinct-Pass us es xu xe.1 (rw (keep, again) at rest) in
              next
              ∙ ap (λ x. x && all_pass m env es) (any_equal-Pass us e xu again)
              ∙ sym (and_assoc (all_pass m env us) (passes (sql_value m env e)) (all_pass m env es))
          | inr fresh ↦
              let next =
                distinct-Pass (us ++ e ∷ []) es (AllExact-snoc us e xu xe.0) xe.1
                  (rw (keep, fresh) at rest) in
              next
              ∙ ap (λ x. x && all_pass m env es) (all_pass-snoc us e)
              ∙ sym (and_assoc (all_pass m env us) (passes (sql_value m env e)) (all_pass m env es))
        ]
      ]

  insert-Pass :
      (less : ExprPtr → ExprPtr → Bool) (e : ExprPtr) (es : List ExprPtr)
      → all_pass m env (insert less e es) ≡ (passes (sql_value m env e) && all_pass m env es)
  unfolding insert
  insert-Pass less e [] = refl
  insert-Pass less e (x ∷ xs) = elim (Bool-cases (less e x)) [
    | inl first ↦ rw first
    | inr later ↦ rw later (let rest = insert-Pass less e xs in ground arith)
  ]

  insert_all-Pass :
      (less : ExprPtr → ExprPtr → Bool) (es sorted : List ExprPtr)
      → all_pass m env (insert_all less es sorted) ≡ (all_pass m env es && all_pass m env sorted)
  unfolding insert_all
  insert_all-Pass less [] sorted = refl
  insert_all-Pass less (e ∷ es) sorted =
      let rest = insert_all-Pass less es (insert less e sorted) in
      let here = insert-Pass less e sorted in ground arith

  pub stable_sort-Pass :
      (less : ExprPtr → ExprPtr → Bool) (es : List ExprPtr)
      → all_pass m env (stable_sort less es) ≡ all_pass m env es
  unfolding stable_sort
  stable_sort-Pass less es = insert_all-Pass less es [] ∙ and-true _
