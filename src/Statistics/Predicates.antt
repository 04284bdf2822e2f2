-- ===== src/Statistics/Predicates.antt =====
-- One comparison of a column with a literal, in `may_match` (src/statistics.cpp): what the statistics
-- of the column say of its values, and the test on them.
use vectorized_query_engine.Base.{
  ℕ, ◌≡◌, ◌≢◌, refl, Bool, true, false, ◌&&◌, ◌||◌, some, List, ◌==◌, arith, Bool-cases, inl, inr,
  Option-cases,
}
use vectorized_query_engine.Base.Int.{ℤ, ltb_ℤ}
use vectorized_query_engine.Base.Results.{ok, >>=-eq-ok}
use vectorized_query_engine.Vector.Double.{is_nan, lt_double, le_double, eq_double}
use vectorized_query_engine.Vector.Value.{Value, bool, int, real, text}
use vectorized_query_engine.Expression.{
  ExprKind, equal, not_equal, less, less_equal, greater, greater_equal,
}
use vectorized_query_engine.Expression.Scalar.{sql_compare, relation, lt_bool, lt_text}
use vectorized_query_engine.Statistics.{
  ColumnStatistics, Predicate, compare_value, bounds_match, is_nan_value, is_null_value,
  predicate_matches,
}
use vectorized_query_engine.Statistics.Bounds.{
  bounds_match-rules_out, bool_order, int_order, double_order, text_order,
}

-- a ≤ b for two values of one type that are numbers
abbrev pub AtMost : Value → Value → Type 0
AtMost (bool a) (bool b) = lt_bool b a ≡ false
AtMost (int a) (int b) = ltb_ℤ b a ≡ false
AtMost (real x) (real y) = (is_nan x ≡ false) × (is_nan y ≡ false) × (lt_double y x ≡ false)
AtMost (text s) (text t) = lt_text t s ≡ false
AtMost _ _ = ⊥

-- What the statistics of a column say of a value x in it; of NULLs, only where their count is known.
pub record Describes (s : ColumnStatistics) (x : Value) : Type 0 where
  pub null : s.nulls_known ≡ true → is_null_value x ≡ true → s.nulls ≢ 0
  pub full : s.nulls_known ≡ true → s.nulls ≡ s.rows → is_null_value x ≡ true
  pub nan : is_nan_value x ≡ true → s.has_nan ≡ true
  pub least :
      (m : Value)
      → s.minimum ≡ some m
      → is_null_value x ≡ false
      → is_nan_value x ≡ false
      → AtMost m x
  pub most :
      (m : Value)
      → s.maximum ≡ some m
      → is_null_value x ≡ false
      → is_nan_value x ≡ false
      → AtMost x m

-- A `false` that is not due to NULLs or NaN comes from the extremes.
reduced :
    (p : Predicate) (s : ColumnStatistics)
    → predicate_matches p s ≡ ok false
    → is_null_value p.value ≡ false
    → (s.nulls_known && s.nulls == s.rows) ≡ false
    → is_nan_value p.value ≡ false
    → (least : Value) × (most : Value) × (lo : ℤ) × (hi : ℤ) × (s.minimum ≡ some least)
      × (s.maximum ≡ some most)
      × (compare_value least p.value ≡ ok lo)
      × (compare_value most p.value ≡ ok hi)
      × (bounds_match s.has_nan p.kind lo hi ≡ false)
unfolding predicate_matches
reduced p s h a b c = elim (Option-cases s.minimum) [
  | inl e ↦ (let k = rw (a, b, c, e) at h in cc)
  | inr (m, e) ↦ elim (Option-cases s.maximum) [
    | inl e' ↦ (let k = rw (a, b, c, e, e') at h in cc)
    | inr (n, e') ↦
        let k = rw (a, b, c, e, e') at h in
        let (lo, el, k') = >>=-eq-ok (compare_value m p.value) _ k in
        let (hi, eh, k'') = >>=-eq-ok (compare_value n p.value) _ k' in
        (m, n, lo, hi, e, e', el, eh, cc)
  ]
]

pub ok-injective {ℓ} : {A : Type ℓ} {a b : A} → ok a ≡ ok b → a ≡ b
ok-injective h = cc

-- The extremes rule a value out, type by type.
bool_case :
    (k : ExprKind) (n : Bool) (m l : Value) (a b : Bool) {lo hi : ℤ}
    → AtMost m (bool a)
    → AtMost (bool a) l
    → compare_value m (bool b) ≡ ok lo
    → compare_value l (bool b) ≡ ok hi
    → bounds_match n k lo hi ≡ false
    → sql_compare k (bool a) (bool b) ≢ bool true
bool_case k n (bool m) (bool l) a b p q e e' h r =
    let f = ok-injective e in
    let g = ok-injective e' in
    bounds_match-rules_out bool_order k n m l a b tt tt tt tt p q (rw (f, g) h) cc
bool_case k n (bool m) _ a b p q e e' h r = absurd q
bool_case k n _ l a b p q e e' h r = absurd p

int_case :
    (k : ExprKind) (n : Bool) (m l : Value) (a b : ℤ) {lo hi : ℤ}
    → AtMost m (int a)
    → AtMost (int a) l
    → compare_value m (int b) ≡ ok lo
    → compare_value l (int b) ≡ ok hi
    → bounds_match n k lo hi ≡ false
    → sql_compare k (int a) (int b) ≢ bool true
int_case k n (int m) (int l) a b p q e e' h r =
    let f = ok-injective e in
    let g = ok-injective e' in
    bounds_match-rules_out int_order k n m l a b tt tt tt tt p q (rw (f, g) h) cc
int_case k n (int m) _ a b p q e e' h r = absurd q
int_case k n _ l a b p q e e' h r = absurd p

text_case :
    (k : ExprKind) (n : Bool) (m l : Value) (a b : List ℕ) {lo hi : ℤ}
    → AtMost m (text a)
    → AtMost (text a) l
    → compare_value m (text b) ≡ ok lo
    → compare_value l (text b) ≡ ok hi
    → bounds_match n k lo hi ≡ false
    → sql_compare k (text a) (text b) ≢ bool true
text_case k n (text m) (text l) a b p q e e' h r =
    let f = ok-injective e in
    let g = ok-injective e' in
    bounds_match-rules_out text_order k n m l a b tt tt tt tt p q (rw (f, g) h) cc
text_case k n (text m) _ a b p q e e' h r = absurd q
text_case k n _ l a b p q e e' h r = absurd p

real_case :
    (k : ExprKind) (n : Bool) (m l : Value) (a b : ℕ) {lo hi : ℤ}
    → is_nan b ≡ false
    → AtMost m (real a)
    → AtMost (real a) l
    → compare_value m (real b) ≡ ok lo
    → compare_value l (real b) ≡ ok hi
    → bounds_match n k lo hi ≡ false
    → sql_compare k (real a) (real b) ≢ bool true
real_case k n (real m) (real l) a b w p q e e' h r =
    let f = ok-injective e in
    let g = ok-injective e' in
    bounds_match-rules_out double_order k n m l a b p.0 q.1 p.1 w p.2 q.2 (rw (f, g) h) cc
real_case k n (real m) _ a b w p q e e' h r = absurd q
real_case k n _ l a b w p q e e' h r = absurd p

pub some-injective {ℓ} : {A : Type ℓ} {a b : A} → some a ≡ some b → a ≡ b
some-injective h = cc

bool-injective : {a b : Bool} → bool a ≡ bool b → a ≡ b
bool-injective h = cc

not_full :
    (s : ColumnStatistics) (x : Value)
    → Describes s x
    → is_null_value x ≡ false
    → (s.nulls_known && s.nulls == s.rows) ≡ false
not_full s x d h = ground (arith, d.full)

-- NaN satisfies `!=` alone.
nan_relation :
    (k : ExprKind) (a b : ℕ)
    → (is_nan a || is_nan b) ≡ true
    → relation eq_double lt_double le_double k a b ≡ true
    → k ≡ not_equal
nan_relation not_equal a b h r = refl
nan_relation equal a b h r = ground arith
nan_relation less a b h r = ground arith
nan_relation less_equal a b h r = ground arith
nan_relation greater a b h r = ground arith
nan_relation greater_equal a b h r = ground arith
nan_relation _ a b h r = cc

real_lem :
    (id : ℕ) (k : ExprKind) (s : ColumnStatistics) (a b : ℕ)
    → Describes s (real a)
    → predicate_matches (record { column = id; kind = k; value = real b }) s ≡ ok false
    → sql_compare k (real a) (real b) ≢ bool true
real_lem id k s a b d h r =
    let p : Predicate = record { column = id; kind = k; value = real b } in
    let full = not_full s (real a) d refl in
    elim (Bool-cases (is_nan b)) [
      | inl nan_b ↦
          let e = nan_relation k a b (ground arith) (bool-injective r) in
          (unfold predicate_matches in let g = rw (full, nan_b, e) at h in cc)
      | inr number_b ↦
          let (m, l, lo, hi, em, el, f, g, out) = reduced p s h refl full number_b in
          elim (Bool-cases (is_nan a)) [
            | inl nan_a ↦
                let e = nan_relation k a b (rw nan_a) (bool-injective r) in
                (let z = rw (e, d.nan nan_a) at out in cc)
            | inr number_a ↦
                real_case k s.has_nan m l a b number_b (d.least m em refl number_a)
                  (d.most l el refl number_a) f g out r
          ]
    ]

-- A column value that the predicate selects is not ruled out by the column's statistics.
pub predicate_lem :
    (id : ℕ) (k : ExprKind) (s : ColumnStatistics) (x v : Value)
    → Describes s x
    → predicate_matches (record { column = id; kind = k; value = v }) s ≡ ok false
    → sql_compare k x v ≢ bool true
predicate_lem id k s (bool a) (bool b) d h r =
    let (m, l, lo, hi, em, el, f, g, out) =
      reduced (record { column = id; kind = k; value = bool b }) s h refl
        (not_full s (bool a) d refl) refl in
    bool_case k s.has_nan m l a b (d.least m em refl refl) (d.most l el refl refl) f g out r
predicate_lem id k s (int a) (int b) d h r =
    let (m, l, lo, hi, em, el, f, g, out) =
      reduced (record { column = id; kind = k; value = int b }) s h refl (not_full s (int a) d refl)
        refl in
    int_case k s.has_nan m l a b (d.least m em refl refl) (d.most l el refl refl) f g out r
predicate_lem id k s (text a) (text b) d h r =
    let (m, l, lo, hi, em, el, f, g, out) =
      reduced (record { column = id; kind = k; value = text b }) s h refl
        (not_full s (text a) d refl) refl in
    text_case k s.has_nan m l a b (d.least m em refl refl) (d.most l el refl refl) f g out r
predicate_lem id k s (real a) (real b) d h r = real_lem id k s a b d h r
predicate_lem id k s _ _ d h r = cc
