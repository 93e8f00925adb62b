-- ===== src/Prelude/Maps.antt =====
-- Go's `map[string]V` as an association list with distinct keys, and sets of names.
use Prim.Native.String.{String}
use mathlib.Core.Path.{◌≡◌, refl}
use mathlib.Core.Bool.{Bool, false, ◌||◌}
use mathlib.Core.Option.{Option, none, some}
use mathlib.Core.List.{List, [], ◌∷◌, ◌++◌, map}
use native.Mathlib.Omega.{arith}
use text.Mathlib.Text.{◌==◌}
use text.Mathlib.TextEquality.{eq_iff}
use apirun.Prelude.Tests.{if◌then◌else◌}

abbrev pub Map {ℓ} : Type ℓ → Type ℓ
Map V = List (String × V)

module _ {ℓ} {V : Type ℓ} where
  -- v, ok := m[k]
  unfoldable pub lookup : String → Map V → Option V
  lookup name [] = none
  lookup name ((key, val) ∷ rest) = if key == name then some val else lookup name rest

  -- m[k] = v
  unfoldable pub insert : String → V → Map V → Map V
  insert name new [] = (name, new) ∷ []
  insert name new ((key, val) ∷ rest) =
      if key == name then (name, new) ∷ rest else (key, val) ∷ insert name new rest

  abbrev pub keys : Map V → List String
  keys m = map (λ e. e.0) m

  -- for k, v := range n { m[k] = v }
  unfoldable pub insert_all : Map V → Map V → Map V
  insert_all [] m = m
  insert_all ((k, v) ∷ n) m = insert_all n (insert k v m)

  pub lookup-insert :
      (set get : String) (new : V) (m : Map V)
      → lookup get (insert set new m) ≡ (if set == get then some new else lookup get m)
  unfolding lookup insert
  lookup-insert set get new [] = refl
  lookup-insert set get new ((key, val) ∷ rest) =
      ground (arith, lookup-insert set get new rest, eq_iff set get, eq_iff key set, eq_iff key get)

-- A set of names, as the list of its members.
unfoldable pub elem : String → List String → Bool
elem a [] = false
elem a (x ∷ xs) = x == a || elem a xs

-- Go's `append` at the end of a slice of names.
abbrev pub snoc {ℓ} : {A : Type ℓ} → List A → A → List A
snoc xs x = xs ++ x ∷ []

-- The names are pairwise different.
abbrev pub Distinct : List String → Type 0
Distinct [] = Unit
Distinct (x ∷ xs) = (elem x xs ≡ false) × Distinct xs

pub elem-append : (a : String) (xs ys : List String) → elem a (xs ++ ys) ≡ (elem a xs || elem a ys)
unfolding elem
elem-append a [] ys = refl
elem-append a (x ∷ xs) ys = ground (arith, elem-append a xs ys)

pub elem-snoc : (a b : String) (xs : List String) → elem a (xs ++ b ∷ []) ≡ (elem a xs || b == a)
unfolding elem
elem-snoc a b [] = ground arith
elem-snoc a b (x ∷ xs) = ground (arith, elem-snoc a b xs)

-- The first of two lookups that has a value.
module _ {ℓ} {A : Type ℓ} where
  abbrev pub or_else : Option A → Option A → Option A
  or_else none later = later
  or_else (some a) later = some a

  pub or_else-none : (first : Option A) → or_else first none ≡ first
  or_else-none none = refl
  or_else-none (some a) = refl

  pub or_else_assoc : (a b c : Option A) → or_else a (or_else b c) ≡ or_else (or_else a b) c
  or_else_assoc none b c = refl
  or_else_assoc (some v) b c = refl
