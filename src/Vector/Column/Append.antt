-- ===== src/Vector/Column/Append.antt =====
-- `append_value`, `append_null` and `append_from` of class Column (src/vector.cpp).
use vectorized_query_engine.Base.{
  ℕ, ◌+◌, ◌-◌, ◌^◌, ◌≤◌, ◌<◌, ◌≡◌, refl, ◌∙◌, Bool, true, false, not, List, [], ◌∷◌, ◌++◌, length,
  get_or, if◌then◌else◌, arith, ltb, ◌==◌,
}
use vectorized_query_engine.Base.Results.{Result, ok}
use vectorized_query_engine.Base.Int.{ℤ, pos}
use vectorized_query_engine.Vector.Value.{
  DataType, boolean, int64, double, string, Value, null, bool, int, real, text, type_eq, value_type,
}
use vectorized_query_engine.Vector.Validity
use vectorized_query_engine.Vector.Column.{
  StringBuffer, Payload, bytes8, int64s, doubles, strings, Column, size, text_at, cell, value,
  arena_max, append_byte, append_int64, append_double, append_string, append_null, append_value,
  append_null_as, append_checked, append_from, append_cell,
}
use vectorized_query_engine.Vector.Column.Cells.{IsTyped, IsColumn, Appended, Appended_lem}
use vectorized_query_engine.Vector.Column.Push.{
  byte-AddsCell, int64-AddsCell, double-AddsCell, string-AddsCell, push_string,
}

-- The room that a value needs in the arena.
abbrev pub FitsArena : Payload → Value → Type 0
FitsArena (strings s) (text v) = length s.bytes + length v ≤ arena_max
FitsArena _ _ = Unit

-- A value that is no NULL has the column's type.
abbrev pub MatchesType : Value → DataType → Type 0
MatchesType null t = Unit
MatchesType (bool b) boolean = Unit
MatchesType (int n) int64 = Unit
MatchesType (real x) double = Unit
MatchesType (text s) string = Unit
MatchesType _ _ = ⊥

-- `r` is what the call returns, and it is `c` with one value more.
abbrev pub Appends : Column → Result Column → Value → Type 0
Appends c result v = (r : Column) × (result ≡ ok r) × Appended c v r

typed_byte : (t : DataType) (d : List ℕ) → IsTyped t (bytes8 d) → t ≡ boolean
typed_byte boolean d h = refl
typed_byte _ d h = absurd h

typed_int64 : (t : DataType) (d : List ℤ) → IsTyped t (int64s d) → t ≡ int64
typed_int64 int64 d h = refl
typed_int64 _ d h = absurd h

typed_double : (t : DataType) (d : List ℕ) → IsTyped t (doubles d) → t ≡ double
typed_double double d h = refl
typed_double _ d h = absurd h

typed_string : (t : DataType) (s : StringBuffer) → IsTyped t (strings s) → t ≡ string
typed_string string s h = refl
typed_string _ s h = absurd h

-- The type check of `append_value` passes exactly where the value has the column's type.
pub append_value-checked :
    (v : Value) (c : Column) → MatchesType v c.type → append_value c v ≡ append_checked c v
unfolding append_value value_type
append_value-checked v c m = ground arith

pub type_eq_refl : (t : DataType) → type_eq t t ≡ true
type_eq_refl boolean = refl
type_eq_refl int64 = refl
type_eq_refl double = refl
type_eq_refl string = refl

module _ {c : Column} (good : IsColumn c) (room : size c + 1 < 2 ^ 64) where
  append_byte-Appends :
      (d : List ℕ) (v : ℕ) (b : Bool)
      → c.payload ≡ bytes8 d
      → Appends c (append_byte c v b) (if b then bool (not (v == 0)) else null)
  append_byte-Appends d v b e =
      let is_bool = typed_byte c.type d (rw e at good.typed) in
      let adds = byte-AddsCell d v (size c) (rw e at good.rows) in
      (
        record c { payload = bytes8 (d ++ v ∷ []); validity = Validity.append c.validity b },
        unfold append_byte in rw e,
        Appended_lem (bytes8 (d ++ v ∷ [])) (bool (not (v == 0))) b good room (rw is_bool tt)
            (rw e adds),
      )

  append_int64-Appends :
      (d : List ℤ) (v : ℤ) (b : Bool)
      → c.payload ≡ int64s d
      → Appends c (append_int64 c v b) (if b then int v else null)
  append_int64-Appends d v b e =
      let is_int = typed_int64 c.type d (rw e at good.typed) in
      let adds = int64-AddsCell d v (size c) (rw e at good.rows) in
      (
        record c { payload = int64s (d ++ v ∷ []); validity = Validity.append c.validity b },
        unfold append_int64 in rw e,
        Appended_lem (int64s (d ++ v ∷ [])) (int v) b good room (rw is_int tt) (rw e adds),
      )

  append_double-Appends :
      (d : List ℕ) (v : ℕ) (b : Bool)
      → c.payload ≡ doubles d
      → Appends c (append_double c v b) (if b then real v else null)
  append_double-Appends d v b e =
      let is_real = typed_double c.type d (rw e at good.typed) in
      let adds = double-AddsCell d v (size c) (rw e at good.rows) in
      (
        record c { payload = doubles (d ++ v ∷ []); validity = Validity.append c.validity b },
        unfold append_double in rw e,
        Appended_lem (doubles (d ++ v ∷ [])) (real v) b good room (rw is_real tt) (rw e adds),
      )

  append_string-Appends :
      (s : StringBuffer) (v : List ℕ) (b : Bool)
      → c.payload ≡ strings s
      → length s.bytes + length v ≤ arena_max
      → Appends c (append_string c v b) (if b then text v else null)
  append_string-Appends s v b e fits =
      let is_text = typed_string c.type s (rw e at good.typed) in
      let adds = string-AddsCell s v (size c) (rw e at good.rows) fits in
      let under : ltb (arena_max - length s.bytes) (length v) ≡ false = ground arith in
      (
        record c { payload = strings (push_string s v); validity = Validity.append c.validity b },
        unfold append_string push_string in rw (e, under),
        Appended_lem (strings (push_string s v)) (text v) b good room (rw is_text tt) (rw e adds),
      )

  append_null_at :
      (t : DataType) (p : Payload)
      → c.payload ≡ p
      → IsTyped t p
      → Appends c (append_null_as t c) null
  append_null_at boolean (bytes8 d) ep h = append_byte-Appends d 0 false ep
  append_null_at int64 (int64s d) ep h = append_int64-Appends d (pos 0) false ep
  append_null_at double (doubles d) ep h = append_double-Appends d 0 false ep
  append_null_at string (strings s) ep h =
      let a = rw ep at good.rows in append_string-Appends s [] false ep (omega (arith, a.small))
  append_null_at _ p ep h = absurd h

  -- For a column of any type under the invariant with room below 2^64 rows, append_null returns
  -- the column with NULL added at the end under the invariant.
  pub append_null-Appends : Appends c (append_null c) null
  append_null-Appends = unfold append_null in append_null_at c.type c.payload refl good.typed

  append_checked_at :
      (v : Value) (t : DataType) (p : Payload)
      → c.payload ≡ p
      → IsTyped t p
      → MatchesType v t
      → FitsArena p v
      → Appends c (append_checked c v) v
  append_checked_at null t p ep h m f = append_null-Appends
  append_checked_at (bool true) boolean (bytes8 d) ep h m f = append_byte-Appends d 1 true ep
  append_checked_at (bool false) boolean (bytes8 d) ep h m f = append_byte-Appends d 0 true ep
  append_checked_at (int n) int64 (int64s d) ep h m f = append_int64-Appends d n true ep
  append_checked_at (real x) double (doubles d) ep h m f = append_double-Appends d x true ep
  append_checked_at (text w) string (strings s) ep h m f = append_string-Appends s w true ep f
  append_checked_at (bool b) int64 p ep h m f = absurd m
  append_checked_at (bool b) double p ep h m f = absurd m
  append_checked_at (bool b) string p ep h m f = absurd m
  append_checked_at (bool b) boolean p ep h m f = absurd h
  append_checked_at (int n) boolean p ep h m f = absurd m
  append_checked_at (int n) double p ep h m f = absurd m
  append_checked_at (int n) string p ep h m f = absurd m
  append_checked_at (int n) int64 p ep h m f = absurd h
  append_checked_at (real x) boolean p ep h m f = absurd m
  append_checked_at (real x) int64 p ep h m f = absurd m
  append_checked_at (real x) string p ep h m f = absurd m
  append_checked_at (real x) double p ep h m f = absurd h
  append_checked_at (text w) boolean p ep h m f = absurd m
  append_checked_at (text w) int64 p ep h m f = absurd m
  append_checked_at (text w) double p ep h m f = absurd m
  append_checked_at (text w) string p ep h m f = absurd h

  -- For a column under the invariant with room below 2^64 rows, and a value of its type or NULL,
  -- append_value returns the column with that value added at the end under the invariant, if a
  -- text still fits the arena.
  pub append_value-Appends :
      (v : Value) → MatchesType v c.type → FitsArena c.payload v → Appends c (append_value c v) v
  append_value-Appends v m f =
      let (r, e, a) = append_checked_at v c.type c.payload refl good.typed m f in
      (r, append_value-checked v c m ∙ e, a)

  append_from_at :
      (b : Bool) (row : ℕ) (t : DataType) (p q : Payload)
      → c.payload ≡ p
      → IsTyped t p
      → IsTyped t q
      → FitsArena p (cell q row)
      → Appends c (append_cell c q row b) (if b then cell q row else null)
  append_from_at b row boolean (bytes8 d) (bytes8 e) ep h k f =
      append_byte-Appends d (get_or e row 0) b ep
  append_from_at b row int64 (int64s d) (int64s e) ep h k f =
      append_int64-Appends d (get_or e row (pos 0)) b ep
  append_from_at b row double (doubles d) (doubles e) ep h k f =
      append_double-Appends d (get_or e row 0) b ep
  append_from_at b row string (strings s) (strings e) ep h k f =
      append_string-Appends s (text_at e row) b ep f
  append_from_at b row boolean (bytes8 d) q ep h k f = absurd k
  append_from_at b row int64 (int64s d) q ep h k f = absurd k
  append_from_at b row double (doubles d) q ep h k f = absurd k
  append_from_at b row string (strings s) q ep h k f = absurd k
  append_from_at b row _ p q ep h k f = absurd h

  -- For a column under the invariant with room below 2^64 rows, and a row of a column of the same
  -- type whose array fits that type, append_from returns the column with that row's value, or
  -- NULL, added at the end under the invariant, if the characters of the row's cell still fit the
  -- arena.
  pub append_from-Appends :
      (source : Column) (row : ℕ)
      → IsTyped source.type source.payload
      → source.type ≡ c.type
      → FitsArena c.payload (cell source.payload row)
      → Appends c (append_from c source row) (value source row)
  append_from-Appends source row typed same f =
      let b = Validity.valid source.validity row in
      let (r, e, a) =
        append_from_at b row c.type c.payload source.payload refl good.typed (rw same at typed) f in
      let passes : type_eq source.type c.type ≡ true = rw same (type_eq_refl c.type) in
      (r, unfold append_from in rw passes e, unfold value in a)
