-- ===== src/Blocking/Sort/Weak.antt =====
-- Strict weak orders, which the comparator of Sort (src/blocking.cpp) has to be for std::stable_sort.
use vectorized_query_engine.Base.{
  ℕ, ◌≡◌, refl, Bool, true, false, not, ◌&&◌, ◌||◌, List, [], ◌∷◌, ltb, if◌then◌else◌, arith,
}
use vectorized_query_engine.Base.Int.{ltb_ℤ}
use vectorized_query_engine.Vector.Double.{is_nan, lt_double}
use vectorized_query_engine.Expression.Scalar.{lt_text, lt_bool}

-- Nothing comes before what comes before it, and where a comes before c, any b comes after a or
-- before c.
pub record IsWeak {ℓ} {A : Type ℓ} (less : A → A → Bool) : Type ℓ where
  pub one_way : (a b : A) → less a b ≡ true → less b a ≡ false
  pub between : (a b c : A) → less a c ≡ true → (less a b || less b c) ≡ true

pub on-IsWeak {ℓ m} :
    {A : Type ℓ} {B : Type m} {less : B → B → Bool} (f : A → B)
    → IsWeak less
    → IsWeak (λ a b. less (f a) (f b))
on-IsWeak f w = record {
  one_way = λ a b h. w.one_way (f a) (f b) h;
  between = λ a b c h. w.between (f a) (f b) (f c) h;
}

-- The numbers in order, and all NaNs after them as one.
abbrev pub nan_last : ℕ → ℕ → Bool
nan_last x y = if is_nan x then false else if is_nan y then true else lt_double x y

pub ltb-IsWeak : IsWeak ltb
ltb-IsWeak = record { one_way = λ a b h. ground arith; between = λ a b c h. ground arith }

pub ltb_ℤ-IsWeak : IsWeak ltb_ℤ
ltb_ℤ-IsWeak = record { one_way = λ a b h. ground arith; between = λ a b c h. ground arith }

pub lt_bool-IsWeak : IsWeak lt_bool
lt_bool-IsWeak = record { one_way = λ a b h. ground arith; between = λ a b c h. ground arith }

pub nan_last-IsWeak : IsWeak nan_last
nan_last-IsWeak = record { one_way = λ a b h. ground arith; between = λ a b c h. ground arith }

text_one_way : (s t : List ℕ) → lt_text s t ≡ true → lt_text t s ≡ false
text_one_way [] [] h = cc
text_one_way [] (y ∷ ys) h = refl
text_one_way (x ∷ xs) [] h = cc
text_one_way (x ∷ xs) (y ∷ ys) h = ground (arith, text_one_way xs ys)

text_between : (s t u : List ℕ) → lt_text s u ≡ true → (lt_text s t || lt_text t u) ≡ true
text_between s [] [] h = cc
text_between [] t [] h = cc
text_between (x ∷ xs) t [] h = cc
text_between [] [] (z ∷ zs) h = refl
text_between [] (y ∷ ys) (z ∷ zs) h = refl
text_between (x ∷ xs) [] (z ∷ zs) h = refl
text_between (x ∷ xs) (y ∷ ys) (z ∷ zs) h = ground (arith, text_between xs ys zs)

pub lt_text-IsWeak : IsWeak lt_text
lt_text-IsWeak = record { one_way = text_one_way; between = text_between }

or_left : {x y : Bool} → (x || y) ≡ true → y ≡ false → x ≡ true
or_left h k = ground arith

-- By p first, and by q where p says nothing.
abbrev pub then_by {ℓ} : {A : Type ℓ} → (A → A → Bool) → (A → A → Bool) → A → A → Bool
then_by p q a b = p a b || not (p b a) && q a b

module _ {ℓ} {A : Type ℓ} {p q : A → A → Bool} (wp : IsWeak p) (wq : IsWeak q) where
  pub then_by-IsWeak : IsWeak (then_by p q)
  then_by-IsWeak = record {
    one_way = λ a b h. ground (arith, wp.one_way a b, wp.one_way b a, wq.one_way a b);
    between = λ a b c h. ground (
      arith,
      wp.between a b c,
      wp.between c b a,
      wp.between b a c,
      wp.between a c b,
      wp.between c a b,
      wp.between b c a,
      wp.one_way a c,
      wq.between a b c,
    );
  }

  pub then_by_trans :
      (a b c : A) → then_by p q a b ≡ true → then_by p q b c ≡ true → then_by p q a c ≡ true
  then_by_trans a b c h k =
      let one = then_by-IsWeak.between a c b h in
      let two = then_by-IsWeak.one_way b c k in or_left one two
