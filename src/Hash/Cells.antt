-- ===== src/Hash/Cells.antt =====
-- `hash_cell`, `equal_cell` and `compare_cell` (src/hash.cpp) side by side.
use vectorized_query_engine.Base.{
  ℕ, zero, suc, ◌^◌, ◌<◌, ◌≡◌, refl, ap, Bool, true, false, List, [], ◌∷◌, ltb, get_or, arith,
  Bool-cases, inl, inr,
}
use vectorized_query_engine.Base.Int.{ℤ, pos, negsuc, ltb_ℤ, eqb_ℤ, eqb_ℤ-eq}
use vectorized_query_engine.Base.Results.{Result, ok, err, ◌>>=◌}
use vectorized_query_engine.Vector.Validity
use vectorized_query_engine.Vector.Value.{type_eq}
use vectorized_query_engine.Vector.Column.{
  Column, Payload, bytes8, int64s, doubles, strings, text_at,
}
use vectorized_query_engine.Expression.Scalar.{lt_text}
use vectorized_query_engine.Hash.{
  hash_cell, hash_payload, compare_cell, compare_payload, cmp, cmp_double, canonical, equal_cell,
}

-- A cell of a double array is a 64-bit pattern, as its C++ type says.
abbrev pub IsWord64 : Payload → Type 0
IsWord64 (doubles d) = (i : ℕ) → get_or d i 0 < 2 ^ 64
IsWord64 _ = Unit

cmp-zero {ℓ} :
    {A : Type ℓ} (lt : A → A → Bool) (a b : A)
    → cmp lt a b ≡ pos 0
    → (lt a b ≡ false) × (lt b a ≡ false)
cmp-zero lt a b h = ground arith

ℕ_tight : (a b : ℕ) → ltb a b ≡ false → ltb b a ≡ false → a ≡ b
ℕ_tight a b h k = ground arith

ℤ_tight : (x y : ℤ) → ltb_ℤ x y ≡ false → ltb_ℤ y x ≡ false → x ≡ y
ℤ_tight (pos a) (pos b) h k = ground arith
ℤ_tight (pos a) (negsuc b) h k = ground arith
ℤ_tight (negsuc a) (pos b) h k = ground arith
ℤ_tight (negsuc a) (negsuc b) h k = ground arith

text_tight : (s t : List ℕ) → lt_text s t ≡ false → lt_text t s ≡ false → s ≡ t
text_tight [] [] h k = refl
text_tight [] (y ∷ ys) h k = cc
text_tight (x ∷ xs) [] h k = cc
text_tight (x ∷ xs) (y ∷ ys) h k = ground (arith, text_tight xs ys)

double_tight :
    (x y : ℕ) → x < 2 ^ 64 → y < 2 ^ 64 → cmp_double x y ≡ pos 0 → canonical x ≡ canonical y
double_tight x y p q h = ground arith

ok-injective {ℓ} : {A : Type ℓ} {a b : A} → ok a ≡ ok b → a ≡ b
ok-injective h = cc

hash_payload-eq :
    (p : Payload) (i : ℕ) (q : Payload) (j : ℕ)
    → IsWord64 p
    → IsWord64 q
    → compare_payload p i q j ≡ ok (pos 0)
    → hash_payload p i ≡ hash_payload q j
hash_payload-eq (bytes8 d) i (bytes8 e) j wp wq h =
    let (l, r) = cmp-zero ltb (get_or d i 0) (get_or e j 0) (ok-injective h) in
    rw (ℕ_tight (get_or d i 0) (get_or e j 0) l r)
hash_payload-eq (int64s d) i (int64s e) j wp wq h =
    let (l, r) = cmp-zero ltb_ℤ (get_or d i (pos 0)) (get_or e j (pos 0)) (ok-injective h) in
    rw (ℤ_tight (get_or d i (pos 0)) (get_or e j (pos 0)) l r)
hash_payload-eq (doubles d) i (doubles e) j wp wq h =
    rw (double_tight (get_or d i 0) (get_or e j 0) (wp i) (wq j) (ok-injective h))
hash_payload-eq (strings s) i (strings t) j wp wq h =
    let (l, r) = cmp-zero lt_text (text_at s i) (text_at t j) (ok-injective h) in
    rw (text_tight (text_at s i) (text_at t j) l r)
hash_payload-eq _ i _ j wp wq h = cc

equal_zero : (r : Result ℤ) → (r >>= λ c. ok (eqb_ℤ c (pos 0))) ≡ ok true → r ≡ ok (pos 0)
equal_zero (err e) h = cc
equal_zero (ok c) h = ap ok (eqb_ℤ-eq c (pos 0) (ok-injective h))

-- In columns whose doubles are 64-bit patterns, two cells that equal_cell calls equal have one
-- hash: two NULLs, two NaNs and the two zeros included.
pub hash_cell-eq :
    (a : Column) (i : ℕ) (b : Column) (j : ℕ)
    → IsWord64 a.payload
    → IsWord64 b.payload
    → equal_cell a i b j ≡ ok true
    → hash_cell a i ≡ hash_cell b j
unfolding equal_cell compare_cell hash_cell
hash_cell-eq a i b j wa wb h =
    let payloads = hash_payload-eq a.payload i b.payload j wa wb in
    let av = Validity.valid a.validity i in
    let bv = Validity.valid b.validity j in
    elim (Bool-cases (type_eq a.type b.type)) [
      | inr differ ↦ (let k = rw differ at h in cc)
      | inl same ↦ elim (Bool-cases av) [
        | inr null_a ↦ elim (Bool-cases bv) [
          | inr null_b ↦ rw (null_a, null_b)
          | inl there ↦ (let k = rw (same, null_a, there) at h in cc)
        ]
        | inl here ↦ elim (Bool-cases bv) [
          | inr null_b ↦ (let k = rw (same, here, null_b) at h in cc)
          | inl there ↦
              (let k = rw (same, here, there) at h in
                rw (here, there)
                  (payloads (equal_zero (compare_payload a.payload i b.payload j) k)))
        ]
      ]
    ]

-- Minus a comparison's result.
abbrev pub flip : ℤ → ℤ
flip (negsuc n) = pos 1
flip (pos zero) = pos 0
flip (pos (suc n)) = negsuc 0

text_asym : (s t : List ℕ) → lt_text s t ≡ true → lt_text t s ≡ false
text_asym [] [] h = cc
text_asym [] (y ∷ ys) h = refl
text_asym (x ∷ xs) [] h = cc
text_asym (x ∷ xs) (y ∷ ys) h = ground (arith, text_asym xs ys)

cmp-flip {ℓ} :
    {A : Type ℓ} (lt : A → A → Bool) (a b : A)
    → (lt a b ≡ true → lt b a ≡ false)
    → cmp lt b a ≡ flip (cmp lt a b)
cmp-flip lt a b asym = ground arith

compare_payload-flip :
    (p : Payload) (i : ℕ) (q : Payload) (j : ℕ) (c : ℤ)
    → compare_payload p i q j ≡ ok c
    → compare_payload q j p i ≡ ok (flip c)
compare_payload-flip (bytes8 d) i (bytes8 e) j c h =
    rw (← ok-injective h, cmp-flip ltb (get_or d i 0) (get_or e j 0) (λ l. ground arith))
compare_payload-flip (int64s d) i (int64s e) j c h =
    rw (
      ← ok-injective h,
      cmp-flip ltb_ℤ (get_or d i (pos 0)) (get_or e j (pos 0)) (λ l. ground arith),
    )
compare_payload-flip (doubles d) i (doubles e) j c h =
    rw (← ok-injective h) (ap ok (double_flip (get_or d i 0) (get_or e j 0)))
  where
    double_flip : (x y : ℕ) → cmp_double y x ≡ flip (cmp_double x y)
    double_flip x y = ground arith
compare_payload-flip (strings s) i (strings t) j c h = rw (
  ← ok-injective h,
  cmp-flip lt_text (text_at s i) (text_at t j) (text_asym (text_at s i) (text_at t j)),
)
compare_payload-flip _ i _ j c h = cc

-- Where compare_cell returns a result for two cells, it returns the opposite result for them in
-- the other order.
pub compare_cell-flip :
    (a : Column) (i : ℕ) (b : Column) (j : ℕ) (c : ℤ)
    → compare_cell a i b j ≡ ok c
    → compare_cell b j a i ≡ ok (flip c)
unfolding compare_cell
compare_cell-flip a i b j c h = ground (arith, compare_payload-flip a.payload i b.payload j c)
