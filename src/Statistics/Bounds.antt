-- ===== src/Statistics/Bounds.antt =====
-- The comparison of a literal with a column's extremes, in `may_match` (src/statistics.cpp).
use vectorized_query_engine.Base.{ℕ, ◌≡◌, ◌≢◌, refl, Bool, true, false, not, List, [], ◌∷◌, arith}
use vectorized_query_engine.Base.Int.{ℤ, pos, negsuc, ltb_ℤ, leb_ℤ, eqb_ℤ}
use vectorized_query_engine.Vector.Double.{is_nan, lt_double, le_double, eq_double}
use vectorized_query_engine.Expression.{
  ExprKind, equal, not_equal, less, less_equal, greater, greater_equal, eq_text, eq_bool,
}
use vectorized_query_engine.Expression.Scalar.{relation, lt_bool, lt_text}
use vectorized_query_engine.Hash.{cmp}
use vectorized_query_engine.Statistics.{bounds_match}

-- An order in which `b` is not below `a` is transitive and fits equality.
pub record IsOrder {A : Type 0} (lt eq le : A → A → Bool) (Number : A → Type 0) : Type 0 where
  pub trans :
      (a b c : A)
      → Number a
      → Number b
      → Number c
      → lt b a ≡ false
      → lt c b ≡ false
      → lt c a ≡ false
  pub asym : (a b : A) → lt a b ≡ true → lt b a ≡ false
  pub equals : (a b : A) → eq a b ≡ true → (lt a b ≡ false) × (lt b a ≡ false)
  pub tight : (a b : A) → Number a → Number b → lt a b ≡ false → lt b a ≡ false → eq a b ≡ true
  pub below : (a b : A) → le a b ≡ true → lt b a ≡ false

module _ {A : Type 0} {lt eq le : A → A → Bool} {Number : A → Type 0}
    (o : IsOrder lt eq le Number) where
  -- A column value x between the extremes satisfies no comparison that the extremes rule out.
  pub bounds_match-rules_out :
      (k : ExprKind) (has_nan : Bool) (least most x v : A)
      → Number least
      → Number most
      → Number x
      → Number v
      → lt x least ≡ false
      → lt most x ≡ false
      → bounds_match has_nan k (cmp lt least v) (cmp lt most v) ≡ false
      → relation eq lt le k x v ≢ true
  bounds_match-rules_out equal has_nan l m x v nl nm nx nv p q h r =
      let e = o.equals x v r in
      let a = o.trans l x v nl nx nv p e.1 in
      let b = o.trans v x m nv nx nm e.0 q in ground (arith, a, b)
  bounds_match-rules_out not_equal has_nan l m x v nl nm nx nv p q h r =
      let a = o.trans v l x nv nl nx in
      let b = o.trans x m v nx nm nv q in let t = o.tight x v nx nv in ground (arith, a, b, t)
  bounds_match-rules_out less has_nan l m x v nl nm nx nv p q h r =
      let a = o.trans v l x nv nl nx in ground (arith, a)
  bounds_match-rules_out less_equal has_nan l m x v nl nm nx nv p q h r =
      let a = o.trans l x v nl nx nv p (o.below x v r) in ground (arith, a)
  bounds_match-rules_out greater has_nan l m x v nl nm nx nv p q h r =
      let a = o.trans x m v nx nm nv q in let b = o.asym m v in ground (arith, a, b)
  bounds_match-rules_out greater_equal has_nan l m x v nl nm nx nv p q h r =
      let a = o.trans v x m nv nx nm (o.below v x r) q in ground (arith, a)
  bounds_match-rules_out _ has_nan l m x v nl nm nx nv p q h r = cc

pub bool_order : IsOrder lt_bool eq_bool (λ x y. not (lt_bool y x)) (λ b. Unit)
bool_order = record {
  trans = λ a b c x y z h k. ground arith;
  asym = λ a b h. ground arith;
  equals = λ a b h. ground arith;
  tight = λ a b x y h k. ground arith;
  below = λ a b h. ground arith;
}

int_tight : (a b : ℤ) → ltb_ℤ a b ≡ false → ltb_ℤ b a ≡ false → eqb_ℤ a b ≡ true
int_tight (pos a) (pos b) h k = ground arith
int_tight (pos a) (negsuc b) h k = ground arith
int_tight (negsuc a) (pos b) h k = ground arith
int_tight (negsuc a) (negsuc b) h k = ground arith

pub int_order : IsOrder ltb_ℤ eqb_ℤ leb_ℤ (λ b. Unit)
int_order = record {
  trans = λ a b c x y z h k. ground arith;
  asym = λ a b h. ground arith;
  equals = λ a b h. ground arith;
  tight = λ a b x y h k. int_tight a b h k;
  below = λ a b h. ground arith;
}

pub double_order : IsOrder lt_double eq_double le_double (λ x. is_nan x ≡ false)
double_order = record {
  trans = λ a b c x y z h k. ground arith;
  asym = λ a b h. ground arith;
  equals = λ a b h. ground arith;
  tight = λ a b x y h k. ground arith;
  below = λ a b h. ground arith;
}

text_asym : (s t : List ℕ) → lt_text s t ≡ true → lt_text t s ≡ false
text_asym [] [] h = cc
text_asym [] (y ∷ ys) h = refl
text_asym (x ∷ xs) [] h = cc
text_asym (x ∷ xs) (y ∷ ys) h = ground (arith, text_asym xs ys)

text_trans : (s t u : List ℕ) → lt_text t s ≡ false → lt_text u t ≡ false → lt_text u s ≡ false
text_trans [] t [] h k = refl
text_trans [] t (z ∷ zs) h k = refl
text_trans (x ∷ xs) [] u h k = cc
text_trans (x ∷ xs) (y ∷ ys) [] h k = cc
text_trans (x ∷ xs) (y ∷ ys) (z ∷ zs) h k = ground (arith, text_trans xs ys zs)

text_equals : (s t : List ℕ) → eq_text s t ≡ true → lt_text s t ≡ false
text_equals [] [] h = refl
text_equals [] (y ∷ ys) h = cc
text_equals (x ∷ xs) [] h = cc
text_equals (x ∷ xs) (y ∷ ys) h = ground (arith, text_equals xs ys)

eq_text_sym : (s t : List ℕ) → eq_text s t ≡ true → eq_text t s ≡ true
eq_text_sym [] [] h = refl
eq_text_sym [] (y ∷ ys) h = cc
eq_text_sym (x ∷ xs) [] h = cc
eq_text_sym (x ∷ xs) (y ∷ ys) h = ground (arith, eq_text_sym xs ys)

text_tight : (s t : List ℕ) → lt_text s t ≡ false → lt_text t s ≡ false → eq_text s t ≡ true
text_tight [] [] h k = refl
text_tight [] (y ∷ ys) h k = cc
text_tight (x ∷ xs) [] h k = cc
text_tight (x ∷ xs) (y ∷ ys) h k = ground (arith, text_tight xs ys)

pub text_order : IsOrder lt_text eq_text (λ x y. not (lt_text y x)) (λ s. Unit)
text_order = record {
  trans = λ a b c x y z h k. text_trans a b c h k;
  asym = text_asym;
  equals = λ a b h. (text_equals a b h, text_equals b a (eq_text_sym a b h));
  tight = λ a b x y h k. text_tight a b h k;
  below = λ a b h. ground arith;
}
