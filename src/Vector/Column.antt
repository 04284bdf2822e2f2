-- ===== src/Vector/Column.antt =====
-- Class Column of include/vqe/vector.hpp, with src/vector.cpp: one typed, nullable column.
pub mod Cells
pub mod Push
pub mod Append
pub mod Arena
pub mod Range
use vectorized_query_engine.Base.{
  ℕ, zero, suc, ◌+◌, ◌-◌, ◌^◌, Bool, true, false, not, ◌||◌, List, [], ◌∷◌, ◌++◌, ltb, leb, ◌==◌,
  length, get_or, take, drop, replicate, resize, map, tabulate, if◌then◌else◌,
}
use vectorized_query_engine.Base.Int.{ℤ, pos}
use vectorized_query_engine.Base.Results.{
  Result, ok, err, invalid_argument, length_error, bad_variant_access, throw_if, ◌>>=◌, ◌>>◌,
}
use vectorized_query_engine.Vector.Value.{
  DataType, boolean, int64, double, string, Value, null, bool, int, real, text, type_eq, value_type,
  is_null,
}
use vectorized_query_engine.Vector.Validity
use vectorized_query_engine.Vector.Validity.{Validity}

-- Characters are bytes; `offsets` begins with 0 and has one entry more than there are rows.
pub record StringBuffer : Type 0 where
  pub offsets : List ℕ
  pub bytes : List ℕ

-- `std::variant<std::vector<std::uint8_t>, std::vector<std::int64_t>, std::vector<double>, StringBuffer>`
pub data Payload : Type 0 where
  bytes8 : List ℕ → Payload
  int64s : List ℤ → Payload
  doubles : List ℕ → Payload
  strings : StringBuffer → Payload

pub record Column : Type 0 where
  pub type : DataType
  pub validity : Validity
  pub payload : Payload

abbrev pub size : Column → ℕ
size c = c.validity.size

abbrev pub no_payload : DataType → Payload
no_payload boolean = bytes8 []
no_payload int64 = int64s []
no_payload double = doubles []
no_payload string = strings (record { offsets = 0 ∷ []; bytes = [] })

-- The constructor. Reserved capacity has no effect on the contents.
unfoldable pub new : DataType → Column
new t = record { type = t; validity = Validity.empty; payload = no_payload t }

-- n default entries: `resize` and `fill`, or `offsets.assign` and `bytes.clear`
abbrev pub blank : Payload → ℕ → Payload
blank (bytes8 d) n = bytes8 (replicate n 0)
blank (int64s d) n = int64s (replicate n (pos 0))
blank (doubles d) n = doubles (replicate n 0)
blank (strings s) n = strings (record { offsets = replicate (n + 1) 0; bytes = [] })

unfoldable pub reset : Column → ℕ → Column
reset c n = record c { payload = blank c.payload n; validity = Validity.reset c.validity n true }

abbrev pub slice : List ℕ → ℕ → ℕ → List ℕ
slice xs first last = take (last - first) (drop first xs)

abbrev pub text_at : StringBuffer → ℕ → List ℕ
text_at s row = slice s.bytes (get_or s.offsets row 0) (get_or s.offsets (suc row) 0)

-- What the arrays hold at a row, with no regard to the mask.
abbrev pub cell : Payload → ℕ → Value
cell (bytes8 d) row = bool (not (get_or d row 0 == 0))
cell (int64s d) row = int (get_or d row (pos 0))
cell (doubles d) row = real (get_or d row 0)
cell (strings s) row = text (text_at s row)

-- The limit of a string arena, `std::numeric_limits<std::uint32_t>::max()`
abbrev pub arena_max : ℕ
arena_max = 2 ^ 32 - 1

unfoldable pub append_string : Column → List ℕ → Bool → Result Column
append_string c v b = elim c.payload [
  | strings s ↦ do
    throw_if (ltb (arena_max - length s.bytes) (length v)) length_error
    let joined = s.bytes ++ v
    ok (record c {
      payload = strings (record { bytes = joined; offsets = s.offsets ++ length joined ∷ [] });
      validity = Validity.append c.validity b;
    })
  | other ↦ err bad_variant_access
]

-- `append<T>`: `std::get` throws if the variant holds another type.
unfoldable pub append_byte : Column → ℕ → Bool → Result Column
append_byte c v b = elim c.payload [
  | bytes8 d ↦
      ok (record c { payload = bytes8 (d ++ v ∷ []); validity = Validity.append c.validity b })
  | other ↦ err bad_variant_access
]

unfoldable pub append_int64 : Column → ℤ → Bool → Result Column
append_int64 c v b = elim c.payload [
  | int64s d ↦
      ok (record c { payload = int64s (d ++ v ∷ []); validity = Validity.append c.validity b })
  | other ↦ err bad_variant_access
]

unfoldable pub append_double : Column → ℕ → Bool → Result Column
append_double c v b = elim c.payload [
  | doubles d ↦
      ok (record c { payload = doubles (d ++ v ∷ []); validity = Validity.append c.validity b })
  | other ↦ err bad_variant_access
]

-- A row of no particular value, marked NULL: the cases of `switch (type_)`.
abbrev pub append_null_as : DataType → Column → Result Column
append_null_as boolean c = append_byte c 0 false
append_null_as int64 c = append_int64 c (pos 0) false
append_null_as double c = append_double c 0 false
append_null_as string c = append_string c [] false

unfoldable pub append_null : Column → Result Column
append_null c = append_null_as c.type c

-- `append_value` after its type check; `std::get` finds the value that the check has seen.
abbrev pub append_checked : Column → Value → Result Column
append_checked c null = append_null c
append_checked c (bool b) = append_byte c (if b then 1 else 0) true
append_checked c (int n) = append_int64 c n true
append_checked c (real x) = append_double c x true
append_checked c (text s) = append_string c s true

unfoldable pub append_value : Column → Value → Result Column
append_value c v =
    if is_null v
    then append_null c
    else do t ← value_type v; throw_if (not (type_eq t c.type)) invalid_argument; append_checked c v

-- The value at a row: `switch (type_)`, with the array that the type says.
unfoldable pub value : Column → ℕ → Value
value c row = if Validity.valid c.validity row then cell c.payload row else null

-- The cell of a row, valid or not, goes to the array of the same type.
abbrev pub append_cell : Column → Payload → ℕ → Bool → Result Column
append_cell c (bytes8 d) row b = append_byte c (get_or d row 0) b
append_cell c (int64s d) row b = append_int64 c (get_or d row (pos 0)) b
append_cell c (doubles d) row b = append_double c (get_or d row 0) b
append_cell c (strings s) row b = append_string c (text_at s row) b

unfoldable pub append_from : Column → Column → ℕ → Result Column
append_from c source row = do
  throw_if (not (type_eq source.type c.type)) invalid_argument
  append_cell c source.payload row (Validity.valid source.validity row)

abbrev pub range {ℓ} : {A : Type ℓ} → List A → ℕ → ℕ → List A
range xs start count = take count (drop start xs)

-- The visitor: `std::get<T>(source.data_)` throws if the two variants differ.
unfoldable pub payload_range : Payload → Payload → ℕ → ℕ → Result Payload
payload_range (bytes8 d) (bytes8 e) start count = ok (bytes8 (d ++ range e start count))
payload_range (int64s d) (int64s e) start count = ok (int64s (d ++ range e start count))
payload_range (doubles d) (doubles e) start count = ok (doubles (d ++ range e start count))
payload_range (strings s) (strings t) start count = do
  let base = length s.bytes
  let first = get_or t.offsets start 0
  let last = get_or t.offsets (start + count) 0
  throw_if (ltb (arena_max - base) (last - first)) length_error
  ok (
      strings (record {
        bytes = s.bytes ++ slice t.bytes first last;
        offsets =
            s.offsets ++ tabulate count (λ i. base + get_or t.offsets (start + suc i) 0 - first);
      }))
payload_range _ _ start count = err bad_variant_access

unfoldable pub append_range : Bool → Column → Column → ℕ → ℕ → Result Column
append_range aliased c source start count = do
  throw_if
      (aliased
        || not (type_eq c.type source.type)
        || ltb (size source) start
        || ltb (size source - start) count)
      invalid_argument
  p ← payload_range c.payload source.payload start count
  m ← Validity.append_range aliased c.validity source.validity start count
  ok (record c { payload = p; validity = m })
