-- ===== src/Expression/Evaluator/Literals.antt =====
-- A literal's node (src/expression.cpp): a buffer with the literal once for each row.
use vectorized_query_engine.Base.{
  ℕ, zero, suc, ◌+◌, ◌-◌, ◌*◌, ◌^◌, ◌≤◌, ◌<◌, ◌≡◌, refl, sym, ap, ◌∙◌, Bool, true, false, List, [],
  ◌∷◌, ◌++◌, length, get_or, replicate, arith, ltb, length-append, length-replicate,
  get_or-tabulate, length-tabulate, ◌%◌,
}
use mathlib.Core.List.{append_assoc, append-nil}
use vectorized_query_engine.Base.Int.{ℤ, pos}
use vectorized_query_engine.Base.Results.{ok, length_error, throw_if, >>=-eq-ok, ok-injective}
use vectorized_query_engine.Vector.Value.{
  DataType, boolean, int64, double, string, Value, null, bool, int, real, text,
}
use vectorized_query_engine.Vector.Validity
use vectorized_query_engine.Vector.Validity.Append.{reset-Fills}
use vectorized_query_engine.Vector.Validity.Flags.{get_or-view}
use vectorized_query_engine.Vector.Validity.Words.{bit_at}
use vectorized_query_engine.Base.Bits.{bit-zero}
use vectorized_query_engine.Vector.Column
use vectorized_query_engine.Vector.Column.{
  Column, Payload, bytes8, int64s, doubles, strings, size, value, arena_max, append_byte,
  append_int64, append_double, append_string, append_null, append_null_as, append_value,
  append_checked,
}
use vectorized_query_engine.Vector.Column.Cells.{IsColumn, IsTyped, HoldsRows, values}
use vectorized_query_engine.Vector.Column.Append.{
  MatchesType, FitsArena, append_value-Appends, append_value-checked,
}
use vectorized_query_engine.Expression.Scalar.{fits_int64}
use vectorized_query_engine.Expression.Evaluator.{fill}
use vectorized_query_engine.Expression.Evaluator.Rows.{IsShaped}
use vectorized_query_engine.Expression.Evaluator.Plain.{IsPlain}
use vectorized_query_engine.Expression.Evaluator.Reals.{AllValid}

abbrev pub arena_size : Payload → ℕ
arena_size (strings s) = length s.bytes
arena_size _ = 0

abbrev pub text_size : Value → ℕ
text_size (text w) = length w
text_size _ = 0

-- An integer literal is one of 64 bits.
abbrev pub FitsInt : Value → Type 0
FitsInt (int z) = fits_int64 z ≡ true
FitsInt _ = Unit

-- The effect of one append on the cells as a whole.
abbrev pub Grows : Payload → ℕ → Column → Type 0
Grows p n r = IsPlain r.payload × (arena_size r.payload ≡ arena_size p + n)

push_all {ℓ κ} :
    {A : Type ℓ} (P : A → Type κ) (xs : List A) (x e : A)
    → P x
    → ((j : ℕ) → P (get_or xs j e))
    → (j : ℕ) → P (get_or (xs ++ x ∷ []) j e)
push_all P [] x e px h zero = px
push_all P [] x e px h (suc j) = h zero
push_all P (y ∷ xs) x e px h zero = h zero
push_all P (y ∷ xs) x e px h (suc j) = push_all P xs x e px (λ k. h (suc k)) j

module _ (c r : Column) (b : Bool) where
  byte-Grows :
      (p : Payload) (v : ℕ)
      → c.payload ≡ p
      → v ≤ 1
      → IsPlain p
      → append_byte c v b ≡ ok r
      → Grows p 0 r
  unfolding append_byte
  byte-Grows (bytes8 d) v ep hv plain h =
      let f = ok-injective (rw ep at h) in
      rw (← f) (push_all (λ x. x ≤ 1) d v 0 hv plain, omega arith)
  byte-Grows (int64s d) v ep hv plain h = (let k = rw ep at h in cc)
  byte-Grows (doubles d) v ep hv plain h = (let k = rw ep at h in cc)
  byte-Grows (strings s) v ep hv plain h = (let k = rw ep at h in cc)

  int64-Grows :
      (p : Payload) (v : ℤ)
      → c.payload ≡ p
      → fits_int64 v ≡ true
      → IsPlain p
      → append_int64 c v b ≡ ok r
      → Grows p 0 r
  unfolding append_int64
  int64-Grows (int64s d) v ep hv plain h =
      let f = ok-injective (rw ep at h) in
      rw (← f) (push_all (λ x. fits_int64 x ≡ true) d v (pos 0) hv plain, omega arith)
  int64-Grows (bytes8 d) v ep hv plain h = (let k = rw ep at h in cc)
  int64-Grows (doubles d) v ep hv plain h = (let k = rw ep at h in cc)
  int64-Grows (strings s) v ep hv plain h = (let k = rw ep at h in cc)

  double-Grows : (p : Payload) (v : ℕ) → c.payload ≡ p → append_double c v b ≡ ok r → Grows p 0 r
  unfolding append_double
  double-Grows (doubles d) v ep h =
      (let f = ok-injective (rw ep at h) in rw (← f) (tt, omega arith))
  double-Grows (bytes8 d) v ep h = (let k = rw ep at h in cc)
  double-Grows (int64s d) v ep h = (let k = rw ep at h in cc)
  double-Grows (strings s) v ep h = (let k = rw ep at h in cc)

  string-Grows :
      (p : Payload) (w : List ℕ) → c.payload ≡ p → append_string c w b ≡ ok r → Grows p (length w) r
  unfolding append_string
  string-Grows (strings s) w ep h =
      let k = rw ep at h in
      let (u, eu, k') =
        >>=-eq-ok (throw_if (ltb (arena_max - length s.bytes) (length w)) length_error) _ k in
      let f = ok-injective k' in rw (← f) (tt, length-append s.bytes w)
  string-Grows (bytes8 d) w ep h = (let k = rw ep at h in cc)
  string-Grows (int64s d) w ep h = (let k = rw ep at h in cc)
  string-Grows (doubles d) w ep h = (let k = rw ep at h in cc)

null-Grows :
    (c r : Column) (t : DataType)
    → IsPlain c.payload
    → append_null_as t c ≡ ok r
    → Grows c.payload 0 r
null-Grows c r boolean plain h = byte-Grows c r false c.payload 0 refl (omega arith) plain h
null-Grows c r int64 plain h = int64-Grows c r false c.payload (pos 0) refl refl plain h
null-Grows c r double plain h = double-Grows c r false c.payload 0 refl h
null-Grows c r string plain h = string-Grows c r false c.payload [] refl h

checked-Grows :
    (c r : Column) (v : Value)
    → IsPlain c.payload
    → FitsInt v
    → append_checked c v ≡ ok r
    → Grows c.payload (text_size v) r
checked-Grows c r null plain f h = unfold append_null in null-Grows c r c.type plain h
checked-Grows c r (bool true) plain f h = byte-Grows c r true c.payload 1 refl (omega arith) plain h
checked-Grows c r (bool false) plain f h =
    byte-Grows c r true c.payload 0 refl (omega arith) plain h
checked-Grows c r (int z) plain f h = int64-Grows c r true c.payload z refl f plain h
checked-Grows c r (real x) plain f h = double-Grows c r true c.payload x refl h
checked-Grows c r (text w) plain f h = string-Grows c r true c.payload w refl h

value-Grows :
    (c r : Column) (v : Value)
    → MatchesType v c.type
    → IsPlain c.payload
    → FitsInt v
    → append_value c v ≡ ok r
    → Grows c.payload (text_size v) r
value-Grows c r v m plain f h = checked-Grows c r v plain f (rw (append_value-checked v c m) at h)

fits-FitsArena : (p : Payload) (v : Value) → arena_size p + text_size v ≤ arena_max → FitsArena p v
fits-FitsArena (strings s) (text w) h = h
fits-FitsArena (strings s) null h = tt
fits-FitsArena (strings s) (bool b) h = tt
fits-FitsArena (strings s) (int z) h = tt
fits-FitsArena (strings s) (real x) h = tt
fits-FitsArena (bytes8 d) v h = tt
fits-FitsArena (int64s d) v h = tt
fits-FitsArena (doubles d) v h = tt

length-values : (c : Column) → length (values c) ≡ size c
unfolding values
length-values c = length-tabulate (size c) (value c)

-- n copies of a value of the column's type are added, if their characters fit the arena.
fill_lem :
    (n : ℕ) (v : Value) {c : Column}
    → IsColumn c
    → IsPlain c.payload
    → MatchesType v c.type
    → FitsInt v
    → size c + n < 2 ^ 64
    → arena_size c.payload + n * text_size v ≤ arena_max
    → (r : Column) × (fill n v c ≡ ok r)
      × IsColumn r
      × IsPlain r.payload
      × (r.type ≡ c.type)
      × (values r ≡ values c ++ replicate n v)
unfolding fill
fill_lem zero v {c} good plain m f room arena =
    (c, refl, good, plain, refl, sym (append-nil (values c)))
fill_lem (suc n) v {c} good plain m f room arena =
    let wide = fits-FitsArena c.payload v (grind arith) in
    let (mid, em, a) = append_value-Appends good (omega arith) v m wide in
    let (plain', bytes) = value-Grows c mid v m plain f em in
    let more = ap length a.more in
    let grown : size mid ≡ size c + 1 =
      omega (arith, more, length-values mid, length-values c, length-append (values c) (v ∷ [])) in
    let (r, e, good', plain'', same, all) =
      fill_lem n v {c = mid} a.valid plain' (rw a.type m) f (omega arith) (grind (arith, bytes)) in
    (
      r,
      rw em e,
      good',
      plain'',
      same ∙ a.type,
      all ∙ rw a.more (append_assoc (values c) (v ∷ []) (replicate n v)),
    )

get_or-replicate_same {ℓ} : {A : Type ℓ} (k i : ℕ) (x : A) → get_or (replicate k x) i x ≡ x
get_or-replicate_same zero i x = refl
get_or-replicate_same (suc k) zero x = refl
get_or-replicate_same (suc k) (suc i) x = get_or-replicate_same k i x

-- The arrays of a buffer that is reset to n rows.
blank-rows : (t : DataType) (n : ℕ) → HoldsRows (Column.blank (Column.no_payload t) n) n
blank-rows boolean n = length-replicate {A = ℕ} n 0
blank-rows int64 n = length-replicate n (pos 0)
blank-rows double n = length-replicate {A = ℕ} n 0
blank-rows string n = record {
  counted = length-replicate {A = ℕ} (n + 1) 0 ∙ omega arith;
  first = get_or-replicate_same {A = ℕ} (n + 1) 0 0;
  rising = λ i h.
      rw
        (get_or-replicate_same {A = ℕ} (n + 1) i 0, get_or-replicate_same {A = ℕ} (n + 1) (suc i) 0)
        (omega arith);
  last = get_or-replicate_same {A = ℕ} (n + 1) n 0;
  small = omega arith;
}

blank-IsTyped : (t : DataType) (n : ℕ) → IsTyped t (Column.blank (Column.no_payload t) n)
blank-IsTyped boolean n = tt
blank-IsTyped int64 n = tt
blank-IsTyped double n = tt
blank-IsTyped string n = tt

blank-IsPlain : (t : DataType) (n : ℕ) → IsPlain (Column.blank (Column.no_payload t) n)
blank-IsPlain boolean n = λ i. rw (get_or-replicate_same {A = ℕ} n i 0) (omega arith)
blank-IsPlain int64 n = λ i. rw (get_or-replicate_same n i (pos 0))
blank-IsPlain double n = tt
blank-IsPlain string n = tt

-- A buffer that is reset to n rows: no row is NULL.
pub reset-IsShaped :
    (t : DataType) (n : ℕ)
    → n + 63 < 2 ^ 64
    → IsShaped (Column.reset (Column.new t) n) n
      × AllValid (Column.reset (Column.new t) n) n
      × ((Column.reset (Column.new t) n).type ≡ t)
      × IsPlain (Column.reset (Column.new t) n).payload
unfolding Column.reset Column.new
reset-IsShaped t n h =
    let (mask, flags) = reset-Fills Validity.empty n true h in
    let counted : (Validity.reset Validity.empty n true).size ≡ n =
      (unfold Validity.reset in refl) in
    (
      record { mask = mask; counted = counted; typed = blank-IsTyped t n; rows = blank-rows t n },
      λ i p.
          sym (get_or-view (Validity.reset Validity.empty n true) i true (rw counted p))
          ∙ ap (λ l. get_or l i true) flags
          ∙ get_or-replicate_same n i true,
      refl,
      blank-IsPlain t n,
    )

empty_column : (t : DataType) → IsColumn (Column.reset (Column.new t) 0)
unfolding Column.reset Column.new Validity.reset bit_at
empty_column t =
    let (s, full, same, plain) = reset-IsShaped t 0 (omega arith) in
    record { mask = s.mask; clean = λ row h. bit-zero (row % 64); typed = s.typed; rows = s.rows }

-- What a literal's node needs: a value of the node's type, whose n copies fit the arena.
pub record IsLiteral (v : Value) (t : DataType) (n : ℕ) : Type 0 where
  pub matches : MatchesType v t
  pub number : FitsInt v
  pub room : n * text_size v ≤ arena_max

empty-size : (t : DataType) → size (Column.reset (Column.new t) 0) ≡ 0
unfolding Column.reset Validity.reset
empty-size t = refl

empty-arena : (t : DataType) → arena_size (Column.reset (Column.new t) 0).payload ≡ 0
unfolding Column.reset Column.new
empty-arena boolean = refl
empty-arena int64 = refl
empty-arena double = refl
empty-arena string = refl

get_or-values : (c : Column) (i : ℕ) (v : Value) → i < size c → get_or (values c) i v ≡ value c i
unfolding values
get_or-values c i v h = get_or-tabulate (size c) (value c) i v h

no_values : (c : Column) → size c ≡ 0 → values c ≡ []
unfolding values
no_values c e = rw e

pub literal-Fills :
    (n : ℕ) (v : Value) (t : DataType)
    → IsLiteral v t n
    → n + 63 < 2 ^ 64
    → (r : Column) × (fill n v (Column.reset (Column.new t) 0) ≡ ok r)
      × IsShaped r n
      × (r.type ≡ t)
      × IsPlain r.payload
      × ((i : ℕ) → i < n → value r i ≡ v)
literal-Fills n v t l room =
    let (s, full, same, plain) = reset-IsShaped t 0 (omega arith) in
    let (r, e, good, plain', kept, all) =
      fill_lem n v (empty_column t) plain (rw same l.matches) l.number (omega (arith, empty-size t))
        (omega (arith, empty-arena t, l.room)) in
    let copies : values r ≡ replicate n v =
      all ∙ rw (no_values (Column.reset (Column.new t) 0) (empty-size t)) in
    let many : size r ≡ n = sym (length-values r) ∙ ap length copies ∙ length-replicate n v in
    (
      r,
      e,
      record { mask = good.mask; counted = many; typed = good.typed; rows = rw many at good.rows },
      kept ∙ same,
      plain',
      λ i h.
          sym (get_or-values r i v (rw many h))
          ∙ ap (λ xs. get_or xs i v) copies
          ∙ get_or-replicate_same n i v,
    )
