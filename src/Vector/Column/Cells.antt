-- ===== src/Vector/Column/Cells.antt =====
-- The invariant of a column, its values in order, and what a row that is added does to them.
use vectorized_query_engine.Base.{
  ℕ, suc, ◌+◌, ◌^◌, ◌≤◌, ◌<◌, ◌≡◌, refl, sym, ap, ◌∙◌, Bool, true, List, [], ◌∷◌, ◌++◌, length,
  get_or, tabulate, tabulate_ext, tabulate-add, if◌then◌else◌, arith, get_or-append_left,
  get_or-append_right,
}
use mathlib.Core.Path.{ap₂}
use native.Mathlib.Nat.{add-zero}
use native.Mathlib.Numerals.{add-one}
use vectorized_query_engine.Vector.Value.{DataType, boolean, int64, double, string, Value, null}
use vectorized_query_engine.Vector.Validity
use vectorized_query_engine.Vector.Validity.{Validity}
use vectorized_query_engine.Vector.Validity.Flags.{view, IsValid, IsClean, get_or-view, length-view}
use vectorized_query_engine.Vector.Validity.Append.{append-Appends, size-append}
use vectorized_query_engine.Vector.Column.{
  StringBuffer, Payload, bytes8, int64s, doubles, strings, Column, size, cell, value, arena_max,
}

-- The offsets of n strings rise from 0 to the end of the arena.
pub record IsArena (s : StringBuffer) (n : ℕ) : Type 0 where
  pub counted : length s.offsets ≡ suc n
  pub first : get_or s.offsets 0 0 ≡ 0
  pub rising : (i : ℕ) → i < n → get_or s.offsets i 0 ≤ get_or s.offsets (suc i) 0
  pub last : get_or s.offsets n 0 ≡ length s.bytes
  pub small : length s.bytes ≤ arena_max

abbrev pub HoldsRows : Payload → ℕ → Type 0
HoldsRows (bytes8 d) n = length d ≡ n
HoldsRows (int64s d) n = length d ≡ n
HoldsRows (doubles d) n = length d ≡ n
HoldsRows (strings s) n = IsArena s n

abbrev pub IsTyped : DataType → Payload → Type 0
IsTyped boolean (bytes8 d) = Unit
IsTyped int64 (int64s d) = Unit
IsTyped double (doubles d) = Unit
IsTyped string (strings s) = Unit
IsTyped _ _ = ⊥

-- The array is the one the type says, and it has an entry for each flag of the mask.
pub record IsColumn (c : Column) : Type 0 where
  pub mask : IsValid c.validity
  pub clean : IsClean c.validity
  pub typed : IsTyped c.type c.payload
  pub rows : HoldsRows c.payload (size c)

-- The values of a column in order.
unfoldable pub values : Column → List Value
values c = tabulate (size c) (value c)

-- `r` is `c` with one value more.
pub record Appended (c : Column) (v : Value) (r : Column) : Type 0 where
  pub type : r.type ≡ c.type
  pub valid : IsColumn r
  pub more : values r ≡ values c ++ v ∷ []

flag-append :
    (m r : Validity) (b : Bool)
    → view r ≡ view m ++ b ∷ []
    → r.size ≡ m.size + 1
    → (i : ℕ) → i < m.size
    → Validity.valid r i ≡ Validity.valid m i
flag-append m r b e s i h =
    sym (get_or-view r i true (omega arith))
    ∙ ap (λ l. get_or l i true) e
    ∙ get_or-append_left (view m) (b ∷ []) i true (rw length-view h)
    ∙ get_or-view m i true h

flag-append_last :
    (m r : Validity) (b : Bool)
    → view r ≡ view m ++ b ∷ []
    → r.size ≡ m.size + 1
    → Validity.valid r m.size ≡ b
flag-append_last m r b e s =
    sym (get_or-view r m.size true (omega arith))
    ∙ ap (λ l. get_or l m.size true) e
    ∙ get_or-append_right (view m) (b ∷ []) m.size 0 true (rw length-view (omega arith))

-- What the arrays must do for a row to be added: keep the old cells, and hold the new one.
pub record AddsCell (p : Payload) (n : ℕ) (x : Value) (q : Payload) : Type 0 where
  pub rows : HoldsRows q (suc n)
  pub old : (i : ℕ) → i < n → cell q i ≡ cell p i
  pub fresh : cell q n ≡ x

pub Appended_lem :
    {c : Column} (q : Payload) (x : Value) (b : Bool)
    → IsColumn c
    → size c + 1 < 2 ^ 64
    → IsTyped c.type q
    → AddsCell c.payload (size c) x q
    → Appended c
        (if b then x else null)
        (record c { payload = q; validity = Validity.append c.validity b })
Appended_lem {c} q x b good room typed adds =
    let (mask, clean, e) = append-Appends good.mask good.clean room b in
    let n = size c in
    let m : Validity = Validity.append c.validity b in
    let r : Column = record c { payload = q; validity = m } in
    let grows : m.size ≡ n + 1 = size-append c.validity b in
    let old : (i : ℕ) → i < n → value r i ≡ value c i =
      (λ i h. unfold value in rw (flag-append c.validity m b e grows i h, adds.old i h)) in
    let fresh : value r n ≡ (if b then x else null) =
      (unfold value in rw (flag-append_last c.validity m b e grows, adds.fresh)) in
    record {
      type = refl;
      valid = record {
        mask = mask;
        clean = clean;
        typed = typed;
        rows = rw (grows, add-one) adds.rows;
      };
      more =
          unfold values in
          (ap (λ k. tabulate k (value r)) grows
            ∙ tabulate-add n 1 (value r)
            ∙ ap₂ ◌++◌ (tabulate_ext n (value r) (value c) old)
                (ap (λ y. y ∷ []) (ap (value r) (add-zero n) ∙ fresh)));
    }
