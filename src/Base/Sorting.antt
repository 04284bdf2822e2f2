-- ===== src/Base/Sorting.antt =====
-- `std::stable_sort`, which asks for a strict weak order: equal elements keep their order. What it
-- does by another relation is undefined; here it is a list all the same.
use mathlib.Core.Bool.{Bool}
use mathlib.Core.List.{List, [], ◌∷◌}
use vectorized_query_engine.Base.Tests.{if◌then◌else◌}

module _ {ℓ} {A : Type ℓ} (less : A → A → Bool) where
  -- x goes before the first element that it is less than.
  unfoldable pub insert : A → List A → List A
  insert x [] = x ∷ []
  insert x (y ∷ ys) = if less x y then x ∷ y ∷ ys else y ∷ insert x ys

  unfoldable pub insert_all : List A → List A → List A
  insert_all [] sorted = sorted
  insert_all (x ∷ xs) sorted = insert_all xs (insert x sorted)

  unfoldable pub stable_sort : List A → List A
  unfolding insert_all
  stable_sort xs = insert_all xs []
