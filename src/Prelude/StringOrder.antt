-- ===== src/Prelude/StringOrder.antt =====
-- The order of strings is total, so a sorted list of different names is determined by its members.
use Prim.Native.Char.{Char, code}
use Prim.Native.String.{String}
use mathlib.Core.Path.{◌≡◌, refl, ap₂, subst}
use mathlib.Core.Logic.{inl, inr}
use mathlib.Core.Bool.{true, false}
use mathlib.Core.List.{List, [], ◌∷◌}
use native.Mathlib.Omega.{arith}
use text.Mathlib.Text.{◌==◌}
use text.Mathlib.TextEquality.{eq_iff, codes_equal}
use apirun.Prelude.Tests.{Bool-cases}
use apirun.Prelude.Lists.{All, All-map}
use apirun.Prelude.Maps.{elem, Distinct}
use apirun.Prelude.Sorting.{str_leb, insert_sorted, sort_by}

str_leb-total : (s t : String) → str_leb s t ≡ false → str_leb t s ≡ true
unfolding str_leb
str_leb-total String.[] t h = cc
str_leb-total (String.◌∷◌ c s) String.[] h = refl
str_leb-total (String.◌∷◌ c s) (String.◌∷◌ d t) h = ground (arith, str_leb-total s t)

str_leb_trans : (r s t : String) → str_leb r s ≡ true → str_leb s t ≡ true → str_leb r t ≡ true
unfolding str_leb
str_leb_trans String.[] s t h k = refl
str_leb_trans (String.◌∷◌ b r) String.[] t h k = cc
str_leb_trans (String.◌∷◌ b r) (String.◌∷◌ c s) String.[] h k = cc
str_leb_trans (String.◌∷◌ b r) (String.◌∷◌ c s) (String.◌∷◌ d t) h k =
    ground (arith, str_leb_trans r s t)

code-injective : (c d : Char) → code c ≡ code d → c ≡ d
code-injective c d e = codes_equal c d (ground arith)

str_leb-antisym : (s t : String) → str_leb s t ≡ true → str_leb t s ≡ true → s ≡ t
unfolding str_leb
str_leb-antisym String.[] String.[] h k = refl
str_leb-antisym String.[] (String.◌∷◌ d t) h k = cc
str_leb-antisym (String.◌∷◌ c s) String.[] h k = cc
str_leb-antisym (String.◌∷◌ c s) (String.◌∷◌ d t) h k =
    let same : code c ≡ code d = ground arith in
    ap₂ String.◌∷◌ (code-injective c d same) (str_leb-antisym s t (ground arith) (ground arith))

abbrev pub IsSorted : List String → Type 0
IsSorted [] = Unit
IsSorted (x ∷ xs) = All (λ y. str_leb x y ≡ true) xs × IsSorted xs

All-elem : (P : String → Type 0) (xs : List String) (a : String) → All P xs → elem a xs ≡ true → P a
unfolding elem
All-elem P [] a h e = ground arith
All-elem P (x ∷ xs) a h e = elim (Bool-cases (x == a)) [
  | inl same ↦ subst P ((eq_iff x a).0 same) h.0
  | inr other ↦ All-elem P xs a h.1 (ground arith)
]

All-insert_sorted :
    (P : String → Type 0) (x : String) (xs : List String)
    → P x
    → All P xs
    → All P (insert_sorted str_leb x xs)
unfolding insert_sorted
All-insert_sorted P x [] p h = (p, tt)
All-insert_sorted P x (y ∷ ys) p h = elim (Bool-cases (str_leb x y)) [
  | inl le ↦ rw le (p, h)
  | inr gt ↦ rw gt (h.0, All-insert_sorted P x ys p h.1)
]

insert_sorted-IsSorted :
    (x : String) (xs : List String) → IsSorted xs → IsSorted (insert_sorted str_leb x xs)
unfolding insert_sorted
insert_sorted-IsSorted x [] s = (tt, tt)
insert_sorted-IsSorted x (y ∷ ys) s = elim (Bool-cases (str_leb x y)) [
  | inl le ↦ rw le ((le, All-map _ _ ys (λ z. str_leb_trans x y z le) s.0), s)
  | inr gt ↦ rw gt (
    All-insert_sorted (λ z. str_leb y z ≡ true) x ys (str_leb-total x y gt) s.0,
    insert_sorted-IsSorted x ys s.1,
  )
]

pub sort_by-IsSorted : (xs : List String) → IsSorted (sort_by str_leb xs)
unfolding sort_by
sort_by-IsSorted [] = tt
sort_by-IsSorted (x ∷ xs) = insert_sorted-IsSorted x (sort_by str_leb xs) (sort_by-IsSorted xs)

-- Sorted lists of different names with the same members are equal.
pub IsSorted-unique :
    (xs ys : List String)
    → IsSorted xs
    → IsSorted ys
    → Distinct xs
    → Distinct ys
    → ((a : String) → elem a xs ≡ elem a ys)
    → xs ≡ ys
unfolding elem
IsSorted-unique [] [] s t d e h = refl
IsSorted-unique [] (y ∷ ys) s t d e h = absurd (ground (arith, h y, eq_iff y y))
IsSorted-unique (x ∷ xs) [] s t d e h = absurd (ground (arith, h x, eq_iff x x))
IsSorted-unique (x ∷ xs) (y ∷ ys) s t d e h =
    let head : x ≡ y = elim (Bool-cases (x == y)) [
      | inl same ↦ (eq_iff x y).0 same
      | inr other ↦
          str_leb-antisym x y (All-elem _ xs y s.0 (ground (arith, h y, eq_iff y y)))
            (All-elem _ ys x t.0 (ground (arith, h x, eq_iff x x, eq_iff y x, eq_iff x y)))
    ] in
    ap₂ (λ a l. a ∷ l) head
      (IsSorted-unique xs ys s.1 t.1 d.1 e.1 (λ a. ground (arith, h a, eq_iff x a, eq_iff y a)))
