-- ===== src/Plan/Rewrite/Chains.antt =====
-- Chains of filters above a scan, and the lists of conjuncts that `rewrite` (src/plan.cpp) makes of
-- them.
use vectorized_query_engine.Base.{
  ℕ, ◌+◌, ◌≤◌, ◌≡◌, refl, Bool, true, false, ◌||◌, ◌&&◌, List, [], ◌∷◌, ◌++◌, arith, inl, inr,
  Bool-cases,
}
use vectorized_query_engine.Base.Sorting.{insert, insert_all}
use vectorized_query_engine.Base.Results.{ok, >>=-eq-ok, ok-injective}
use vectorized_query_engine.Vector.Double.{Arithmetic}
use vectorized_query_engine.Vector.Value.{
  DataType, boolean, Schema, Value, null, bool, int, real, text,
}
use vectorized_query_engine.Expression.{literal, and, ExprPtr, missing, node}
use vectorized_query_engine.Expression.Meaning.{sql_value}
use vectorized_query_engine.Expression.Typing.{
  Typed, literal_rule, arithmetic_rule, comparison_rule, connective_rule,
}
use vectorized_query_engine.Expression.Typing.Constant.{NoReals}
use vectorized_query_engine.Expression.Evaluator.Correct.{LiteralsFit}
use vectorized_query_engine.Plan.{Plan, scan, filter}
use vectorized_query_engine.Plan.Rewrite.{conjuncts, always_true, any_equal, distinct}
use vectorized_query_engine.Plan.Rewrite.Predicates.{passes, AllExact}

-- What the filters on top of a plan let through, and what is below them.
abbrev pub chain_passes : Arithmetic → (ℕ → Value) → Plan → Bool
chain_passes m env (filter p e) = passes (sql_value m env e) && chain_passes m env p
chain_passes m env _ = true

abbrev pub bottom : Plan → Plan
bottom (filter p e) = bottom p
bottom p = p

-- Boolean predicates, without doubles, above a scan.
abbrev pub IsChain : Schema → Plan → Type 0
IsChain s (filter p e) = Typed s e boolean × LiteralsFit e 1 × NoReals e × IsChain s p
IsChain s (scan source columns) = Unit
IsChain s _ = ⊥

-- The nodes of a chain.
abbrev pub height : Plan → ℕ
height (filter p e) = height p + 1
height _ = 1

pub short : (p : Plan) → height p ≤ 0 → ⊥
short (filter p e) h = omega (arith, h)
short _ h = omega (arith, h)

pub swap : (a b c : Bool) → (a && (b && c)) ≡ ((b && a) && c)
swap a b c = ground arith

-- Boolean conjuncts.
abbrev pub AllTyped : Schema → List ExprPtr → Type 0
AllTyped s [] = Unit
AllTyped s (e ∷ es) = Typed s e boolean × LiteralsFit e 1 × AllTyped s es

pub AllTyped-append :
    (s : Schema) (xs ys : List ExprPtr) → AllTyped s xs → AllTyped s ys → AllTyped s (xs ++ ys)
AllTyped-append s [] ys hx hy = hy
AllTyped-append s (x ∷ xs) ys hx hy = (hx.0, hx.1, AllTyped-append s xs ys hx.2 hy)

pub AllExact-append : (xs ys : List ExprPtr) → AllExact xs → AllExact ys → AllExact (xs ++ ys)
AllExact-append [] ys hx hy = hy
AllExact-append (x ∷ xs) ys hx hy = (hx.0, AllExact-append xs ys hx.1 hy)

and_typed :
    {s : Schema} {id : ℕ} {w : Value} {u t : DataType} {l r : ExprPtr}
    → Typed s (node and id w u l r) t
    → Typed s l boolean × Typed s r boolean
and_typed (connective_rule _ _ _ _ h tl tr) = (tl, tr)
and_typed (arithmetic_rule _ _ _ _ h _ _ _) = absurd h
and_typed (comparison_rule _ _ _ _ h _ _) = absurd h

pub conjuncts-AllTyped :
    (s : Schema) (e : ExprPtr) → Typed s e boolean → LiteralsFit e 1 → AllTyped s (conjuncts e)
unfolding conjuncts
conjuncts-AllTyped s missing h fit = (h, fit, tt)
conjuncts-AllTyped s (node and id w u l r) h fit =
    let (tl, tr) = and_typed h in
    AllTyped-append s (conjuncts l) (conjuncts r) (conjuncts-AllTyped s l tl fit.0)
      (conjuncts-AllTyped s r tr fit.1)
conjuncts-AllTyped s (node _ id w u l r) h fit = (h, fit, tt)

pub conjuncts-AllExact : (e : ExprPtr) → NoReals e → AllExact (conjuncts e)
unfolding conjuncts
conjuncts-AllExact missing x = (tt, tt)
conjuncts-AllExact (node and id w u l r) x =
    AllExact-append (conjuncts l) (conjuncts r) (conjuncts-AllExact l x.1)
      (conjuncts-AllExact r x.2)
conjuncts-AllExact (node _ id w u l r) x = (x, tt)

literal_typed :
    {s : Schema} {id : ℕ} {w : Value} {u t : DataType} {l r : ExprPtr}
    → Typed s (node literal id w u l r) t
    → u ≡ t
literal_typed (literal_rule _ _ _) = refl
literal_typed (arithmetic_rule _ _ _ _ h _ _ _) = absurd h
literal_typed (comparison_rule _ _ _ _ h _ _) = absurd h
literal_typed (connective_rule _ _ _ _ h _ _) = absurd h

-- A boolean literal can be asked.
always_true-returns :
    (s : Schema) (e : ExprPtr)
    → Typed s e boolean
    → LiteralsFit e 1
    → (b : Bool) × (always_true e ≡ ok b)
always_true-returns s missing h fit = (false, refl)
always_true-returns s (node literal id null t l r) h fit = (false, refl)
always_true-returns s (node literal id (bool b) t l r) h fit = (b, refl)
always_true-returns s (node literal id (int z) t l r) h fit =
    absurd (rw (literal_typed h) at fit.matches)
always_true-returns s (node literal id (real z) t l r) h fit =
    absurd (rw (literal_typed h) at fit.matches)
always_true-returns s (node literal id (text z) t l r) h fit =
    absurd (rw (literal_typed h) at fit.matches)
always_true-returns s (node _ id v t l r) h fit = (false, refl)

pub distinct-returns :
    (s : Schema) (us es : List ExprPtr)
    → AllTyped s es
    → (out : List ExprPtr) × (distinct us es ≡ ok out)
unfolding distinct
distinct-returns s us [] h = (us, refl)
distinct-returns s us (e ∷ es) (te, fit, rest) =
    let (b, eb) = always_true-returns s e te fit in
    elim (Bool-cases (b || any_equal us e)) [
      | inl skip ↦ let (out, eo) = distinct-returns s us es rest in (out, rw (eb, skip) eo)
      | inr keep ↦
          let (out, eo) = distinct-returns s (us ++ e ∷ []) es rest in (out, rw (eb, keep) eo)
    ]

module _ (s : Schema) where
  pub distinct-keeps :
      (us es : List ExprPtr) {out : List ExprPtr}
      → AllTyped s us × AllExact us
      → AllTyped s es × AllExact es
      → distinct us es ≡ ok out
      → AllTyped s out × AllExact out
  unfolding distinct
  distinct-keeps us [] hu he h = (let f = ok-injective h in rw (← f) hu)
  distinct-keeps us (e ∷ es) hu (te, xe) h =
      let (skip, ek, rest) = >>=-eq-ok (always_true e) _ h in
      elim (Bool-cases (skip || any_equal us e)) [
        | inl drop ↦ distinct-keeps us es hu (te.2, xe.1) (rw drop at rest)
        | inr keep ↦
            distinct-keeps (us ++ e ∷ []) es
              (
                AllTyped-append s us (e ∷ []) hu.0 (te.0, te.1, tt),
                AllExact-append us (e ∷ []) hu.1 (xe.0, tt),
              )
              (te.2, xe.1) (rw keep at rest)
      ]

  insert-keeps :
      (less : ExprPtr → ExprPtr → Bool) (e : ExprPtr) (es : List ExprPtr)
      → AllTyped s (e ∷ es) × AllExact (e ∷ es)
      → AllTyped s (insert less e es) × AllExact (insert less e es)
  unfolding insert
  insert-keeps less e [] h = h
  insert-keeps less e (x ∷ xs) ((te, fe, (tx, fx, ts)), (xe, (xx, xs'))) =
      elim (Bool-cases (less e x)) [
        | inl first ↦ rw first ((te, fe, (tx, fx, ts)), (xe, (xx, xs')))
        | inr later ↦
            let (t, x') = insert-keeps less e xs ((te, fe, ts), (xe, xs')) in
            rw later ((tx, fx, t), (xx, x'))
      ]

  pub insert_all-keeps :
      (less : ExprPtr → ExprPtr → Bool) (es sorted : List ExprPtr)
      → AllTyped s es × AllExact es
      → AllTyped s sorted × AllExact sorted
      → AllTyped s (insert_all less es sorted) × AllExact (insert_all less es sorted)
  unfolding insert_all
  insert_all-keeps less [] sorted h k = k
  insert_all-keeps less (e ∷ es) sorted ((te, fe, ts), (xe, xs)) (tk, xk) =
      insert_all-keeps less es (insert less e sorted) (ts, xs)
        (insert-keeps less e sorted ((te, fe, tk), (xe, xk)))
