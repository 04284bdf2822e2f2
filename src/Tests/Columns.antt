-- ===== src/Tests/Columns.antt =====
-- The theorems on columns, at a column of texts.
use vectorized_query_engine.Base.{
  ℕ, zero, suc, ◌<◌, ◌≤◌, get_or, ◌≡◌, refl, true, false, List, [], ◌∷◌, ◌++◌, arith, take, drop,
}
use vectorized_query_engine.Base.Results.{ok}
use vectorized_query_engine.Vector.Value.{null, text, string}
use vectorized_query_engine.Vector.Validity
use vectorized_query_engine.Vector.Validity.Append.{append-Appends, size-append}
use vectorized_query_engine.Vector.Column.{
  Column, strings, StringBuffer, size, new, append_value, append_null, append_from, append_range,
  value,
}
use vectorized_query_engine.Vector.Column.Cells.{IsArena, IsColumn, values}
use vectorized_query_engine.Vector.Column.Append.{
  Appends, append_value-Appends, append_null-Appends, append_from-Appends,
}
use vectorized_query_engine.Vector.Column.Range.{append_range-Extends}
use vectorized_query_engine.Tests.Masks.{empty-IsValid, empty-IsClean}

abbrev ab : List ℕ
ab = b'a' ∷ b'b' ∷ []

abbrev texts : Column
texts = new string

texts-IsColumn : IsColumn texts
unfolding new
texts-IsColumn = record {
  mask = empty-IsValid;
  clean = empty-IsClean;
  typed = tt;
  rows = record {
    counted = refl;
    first = refl;
    rising = λ i h. absurd (omega arith);
    last = refl;
    small = omega arith;
  };
}

append_value-Appends_example : Appends texts (append_value texts (text ab)) (text ab)
append_value-Appends_example =
    append_value-Appends texts-IsColumn (unfold new in omega arith) (text ab) (unfold new in tt)
      (unfold new in omega arith)

append_null-Appends_example : Appends texts (append_null texts) null
append_null-Appends_example = append_null-Appends texts-IsColumn (unfold new in omega arith)

-- A column with the one text "ab".
abbrev buffer : StringBuffer
buffer = record { offsets = 0 ∷ 2 ∷ []; bytes = ab }

abbrev one_text : Column
one_text = record {
  type = string;
  validity = Validity.append Validity.empty true;
  payload = strings buffer;
}

one_text_size : size one_text ≡ 1
one_text_size = size-append Validity.empty true

buffer_rising : (i : ℕ) → i < 1 → get_or buffer.offsets i 0 ≤ get_or buffer.offsets (suc i) 0
buffer_rising zero h = omega arith
buffer_rising (suc i) h = absurd (omega arith)

buffer-IsArena : IsArena buffer 1
buffer-IsArena = record {
  counted = refl;
  first = refl;
  rising = buffer_rising;
  last = refl;
  small = omega arith;
}

one_text-IsColumn : IsColumn one_text
one_text-IsColumn =
    let (mask, clean, flags) = append-Appends empty-IsValid empty-IsClean (omega arith) true in
    record { mask = mask; clean = clean; typed = tt; rows = rw one_text_size buffer-IsArena }

append_from-Appends_example : Appends one_text (append_from one_text one_text 0) (value one_text 0)
append_from-Appends_example =
    append_from-Appends one_text-IsColumn (omega (arith, one_text_size)) one_text 0 tt refl
      (omega arith)

append_range-Extends_example :
    (r : Column) × (append_range false texts one_text 0 1 ≡ ok r)
    × (r.type ≡ texts.type)
    × IsColumn r
    × (values r ≡ values texts ++ take 1 (drop 0 (values one_text)))
append_range-Extends_example =
    append_range-Extends 0 1 texts-IsColumn one_text-IsColumn (unfold new in refl)
      (omega (arith, one_text_size)) (unfold new in omega arith) (unfold new in omega arith)
