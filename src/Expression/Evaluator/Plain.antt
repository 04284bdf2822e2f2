-- ===== src/Expression/Evaluator/Plain.antt =====
-- What the C++ types say of the cells of a column, and the loops of src/expression.cpp on it.
use vectorized_query_engine.Base.{
  ℕ, zero, suc, ◌≤◌, ◌≡◌, Bool, true, ◌&&◌, List, [], ◌∷◌, get_or, set, arith, inl, inr, Bool-cases,
}
use vectorized_query_engine.Base.Int.{ℤ, pos, negsuc, ◌+ℤ◌, ◌-ℤ◌, ◌*ℤ◌}
use vectorized_query_engine.Base.Results.{Result, ok, >>=-eq-ok, ok-injective}
use vectorized_query_engine.Vector.Column.{Column, Payload, bytes8, int64s}
use vectorized_query_engine.Vector.Value.{int64, type_eq}
use vectorized_query_engine.Vector.Validity
use vectorized_query_engine.Vector.Double.{Arithmetic}
use vectorized_query_engine.Expression.{ExprKind, add, subtract, multiply, divide}
use vectorized_query_engine.Expression.Scalar.{fits_int64}
use vectorized_query_engine.Expression.Evaluator.{
  for_rows, byte_data, int64_data, double_data, flag, connective_row, not_row, is_null_row,
  comparison_row, arithmetic_row, int64_step, wrap64, compare_cells,
}
use vectorized_query_engine.Expression.Evaluator.Compare.{IsNormal}
use vectorized_query_engine.Expression.Evaluator.Numbers.{InRange, IsArithmetic, quot-fits}

-- A boolean is 0 or 1, and an integer one of 64 bits.
abbrev pub IsPlain : Payload → Type 0
IsPlain (bytes8 d) = (i : ℕ) → get_or d i 0 ≤ 1
IsPlain (int64s d) = (i : ℕ) → fits_int64 (get_or d i (pos 0)) ≡ true
IsPlain _ = Unit

pub IsPlain-IsNormal : (p : Payload) → IsPlain p → IsNormal p
IsPlain-IsNormal (bytes8 d) h = h
IsPlain-IsNormal _ h = tt

pub IsPlain-InRange : (p : Payload) → IsPlain p → InRange p
IsPlain-InRange (int64s d) h = h
IsPlain-InRange _ h = tt

-- A written entry is the new one or an old one.
pub set_all {ℓ κ} :
    {A : Type ℓ} (P : A → Type κ) (d : List A) (i : ℕ) (x e : A)
    → P x
    → ((j : ℕ) → P (get_or d j e))
    → (j : ℕ) → P (get_or (set d i x) j e)
set_all P [] i x e px h j = h j
set_all P (y ∷ d) zero x e px h zero = px
set_all P (y ∷ d) zero x e px h (suc j) = h (suc j)
set_all P (y ∷ d) (suc i) x e px h zero = h zero
set_all P (y ∷ d) (suc i) x e px h (suc j) = set_all P d i x e px (λ k. h (suc k)) j

-- The body of a loop keeps what holds of the result's cells.
abbrev pub Keeps : (ℕ → Column → Result Column) → Type 0
Keeps step = (i : ℕ) (out r : Column) → step i out ≡ ok r → IsPlain out.payload → IsPlain r.payload

pub for_rows-Keeps :
    (step : ℕ → Column → Result Column) (rows : List ℕ) (out r : Column)
    → Keeps step
    → for_rows step rows out ≡ ok r
    → IsPlain out.payload
    → IsPlain r.payload
unfolding for_rows
for_rows-Keeps step [] out r keep e h = (let f = ok-injective e in rw (← f) h)
for_rows-Keeps step (i ∷ rows) out r keep e h =
    let (mid, em, rest) = >>=-eq-ok (step i out) _ e in
    for_rows-Keeps step rows mid r keep rest (keep i out mid em h)

bytes_seen : (c : Column) (d : List ℕ) → byte_data c ≡ ok d → c.payload ≡ bytes8 d
bytes_seen c d e = ground arith

ints_seen : (c : Column) (d : List ℤ) → int64_data c ≡ ok d → c.payload ≡ int64s d
ints_seen c d e = ground arith

flag-le-one : (b : Bool) → flag b ≤ 1
flag-le-one b = ground arith

set_byte-IsPlain :
    (out : Column) (d : List ℕ) (i : ℕ) (z : Bool)
    → byte_data out ≡ ok d
    → IsPlain out.payload
    → IsPlain (bytes8 (set d i (flag z)))
set_byte-IsPlain out d i z e h =
    set_all (λ x. x ≤ 1) d i (flag z) 0 (flag-le-one z) (rw (bytes_seen out d e) at h)

pub is_null_row-Keeps : (a : Column) → Keeps (is_null_row a)
unfolding is_null_row
is_null_row-Keeps a i out r e h =
    let (d, ed, k) = >>=-eq-ok (byte_data out) _ e in
    (let f = ok-injective k in rw (← f) (set_byte-IsPlain out d i _ ed h))

pub not_row-Keeps : (a : Column) → Keeps (not_row a)
unfolding not_row
not_row-Keeps a i out r e h =
    let (d, ed, k) = >>=-eq-ok (byte_data out) _ e in
    let (xs, ex, k') = >>=-eq-ok (byte_data a) _ k in
    (let f = ok-injective k' in rw (← f) (set_byte-IsPlain out d i _ ed h))

pub connective_row-Keeps : (is_and : Bool) (a b : Column) → Keeps (connective_row is_and a b)
unfolding connective_row
connective_row-Keeps is_and a b i out r e h =
    let (d, ed, k) = >>=-eq-ok (byte_data out) _ e in
    let (xs, ex, k') = >>=-eq-ok (byte_data a) _ k in
    let (ys, ey, k'') = >>=-eq-ok (byte_data b) _ k' in
    (let f = ok-injective k'' in rw (← f) (set_byte-IsPlain out d i _ ed h))

pub comparison_row-Keeps : (c : ExprKind) (a b : Column) → Keeps (comparison_row c a b)
unfolding comparison_row
comparison_row-Keeps c a b i out r e h =
    elim (Bool-cases (Validity.valid a.validity i && Validity.valid b.validity i)) [
      | inr fails ↦ (let f = ok-injective (rw fails at e) in rw (← f) h)
      | inl holds ↦
          let (z, ez, k) = >>=-eq-ok (compare_cells c a.payload b.payload i) _ (rw holds at e) in
          let (d, ed, k') = >>=-eq-ok (byte_data out) _ k in
          (let f = ok-injective k' in rw (← f) (set_byte-IsPlain out d i z ed h))
    ]

wrap64-fits : (z : ℤ) → fits_int64 (wrap64 z) ≡ true
wrap64-fits (pos n) = ground arith
wrap64-fits (negsuc n) = ground arith

step-fits :
    (k : ExprKind) (x y old : ℤ)
    → IsArithmetic k
    → fits_int64 x ≡ true
    → fits_int64 y ≡ true
    → fits_int64 old ≡ true
    → fits_int64 (int64_step k x y old).0 ≡ true
step-fits add x y old a hx hy ho = wrap64-fits (x +ℤ y)
step-fits subtract x y old a hx hy ho = wrap64-fits (x -ℤ y)
step-fits multiply x y old a hx hy ho = wrap64-fits (x *ℤ y)
step-fits divide x y old a hx hy ho = ground (arith, quot-fits x y hx hy)
step-fits _ x y old a hx hy ho = absurd a

pub arithmetic_row-Keeps :
    (m : Arithmetic) (k : ExprKind) (a b : Column)
    → IsArithmetic k
    → IsPlain a.payload
    → IsPlain b.payload
    → Keeps (arithmetic_row m k a b)
unfolding arithmetic_row
arithmetic_row-Keeps m k a b ha pa pb i out r e h =
    elim (Bool-cases (Validity.valid a.validity i && Validity.valid b.validity i)) [
      | inr fails ↦ (let f = ok-injective (rw fails at e) in rw (← f) h)
      | inl holds ↦ elim (Bool-cases (type_eq a.type int64)) [
        | inl ints ↦
            let (xs, ex, k1) = >>=-eq-ok (int64_data a) _ (rw (holds, ints) at e) in
            let (ys, ey, k2) = >>=-eq-ok (int64_data b) _ k1 in
            let (rs, er, k3) = >>=-eq-ok (int64_data out) _ k2 in
            let plain = rw (ints_seen out rs er) at h in
            (let f = ok-injective k3 in
              rw (← f) (
                set_all (λ x. fits_int64 x ≡ true) rs i _ (pos 0)
                  (step-fits k (get_or xs i (pos 0)) (get_or ys i (pos 0)) (get_or rs i (pos 0)) ha
                    ((rw (ints_seen a xs ex) at pa) i) ((rw (ints_seen b ys ey) at pb) i) (plain i))
                  plain))
        | inr other ↦
            let (xs, ex, k1) = >>=-eq-ok (double_data a) _ (rw (holds, other) at e) in
            let (ys, ey, k2) = >>=-eq-ok (double_data b) _ k1 in
            let (rs, er, k3) = >>=-eq-ok (double_data out) _ k2 in
            (let f = ok-injective k3 in rw (← f) tt)
      ]
    ]
