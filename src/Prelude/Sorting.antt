-- ===== src/Prelude/Sorting.antt =====
-- sort.Strings and sort.Slice, as insertion sorts.
use Prim.Native.Char.{code}
use Prim.Native.String.{String}
use Prim.Native.Nat.{suc}
use mathlib.Core.Path.{◌≡◌, refl}
use mathlib.Core.Bool.{Bool, true, false, ◌||◌}
use mathlib.Core.List.{List, [], ◌∷◌}
use native.Mathlib.Omega.{arith}
use text.Mathlib.Text.{◌==◌}
use text.Mathlib.TextEquality.{eq_iff}
use apirun.Prelude.Tests.{if◌then◌else◌, ltb}
use apirun.Prelude.Lists.{length}
use apirun.Prelude.Maps.{elem, Distinct}

-- Go compares strings by their bytes, which for UTF-8 is the order of the code points.
unfoldable pub str_leb : String → String → Bool
str_leb String.[] t = true
str_leb (String.◌∷◌ c s) String.[] = false
str_leb (String.◌∷◌ c s) (String.◌∷◌ d t) =
    let rest = str_leb s t in
    if ltb (code c) (code d) then true else if ltb (code d) (code c) then false else rest

module _ {ℓ} {A : Type ℓ} (le : A → A → Bool) where
  unfoldable pub insert_sorted : A → List A → List A
  insert_sorted a [] = a ∷ []
  insert_sorted a (x ∷ xs) = if le a x then a ∷ x ∷ xs else x ∷ insert_sorted a xs

  unfoldable pub sort_by : List A → List A
  unfolding insert_sorted
  sort_by [] = []
  sort_by (x ∷ xs) = insert_sorted x (sort_by xs)

abbrev pub sort_strings : List String → List String
sort_strings xs = sort_by str_leb xs

-- Sorting keeps the members of a list, and their being different.
module _ (le : String → String → Bool) where
  pub elem-insert_sorted :
      (a x : String) (xs : List String) → elem a (insert_sorted le x xs) ≡ (x == a || elem a xs)
  unfolding insert_sorted elem
  elem-insert_sorted a x [] = refl
  elem-insert_sorted a x (y ∷ ys) = ground (arith, elem-insert_sorted a x ys)

  pub elem-sort_by : (a : String) (xs : List String) → elem a (sort_by le xs) ≡ elem a xs
  unfolding sort_by elem
  elem-sort_by a [] = refl
  elem-sort_by a (x ∷ xs) =
      ground (arith, elem-insert_sorted a x (sort_by le xs), elem-sort_by a xs)

  Distinct-insert_sorted :
      (x : String) (xs : List String)
      → Distinct xs
      → elem x xs ≡ false
      → Distinct (insert_sorted le x xs)
  unfolding insert_sorted elem
  Distinct-insert_sorted x [] d n = (refl, tt)
  Distinct-insert_sorted x (y ∷ ys) d n =
      ground
        (arith, eq_iff x y, eq_iff y x, elem-insert_sorted y x ys, Distinct-insert_sorted x ys d.1)

  pub Distinct-sort_by : (xs : List String) → Distinct xs → Distinct (sort_by le xs)
  unfolding sort_by
  Distinct-sort_by [] d = tt
  Distinct-sort_by (x ∷ xs) d =
      Distinct-insert_sorted x (sort_by le xs) (Distinct-sort_by xs d.1)
        (rw (elem-sort_by x xs) d.0)

  length-insert_sorted :
      (x : String) (xs : List String) → length (insert_sorted le x xs) ≡ suc (length xs)
  unfolding insert_sorted
  length-insert_sorted x [] = refl
  length-insert_sorted x (y ∷ ys) = ground (arith, length-insert_sorted x ys)

  pub length-sort_by : (xs : List String) → length (sort_by le xs) ≡ length xs
  unfolding sort_by
  length-sort_by [] = refl
  length-sort_by (x ∷ xs) =
      ground (arith, length-insert_sorted x (sort_by le xs), length-sort_by xs)
