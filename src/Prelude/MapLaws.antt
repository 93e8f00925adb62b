-- ===== src/Prelude/MapLaws.antt =====
-- The keys of a map, and how many names a list can hold.
use Prim.Native.Nat.{suc, ◌≤◌}
use Prim.Native.String.{String}
use mathlib.Core.Path.{◌≡◌, refl, ap}
use mathlib.Core.Logic.{inl, inr}
use mathlib.Core.Bool.{Bool, true, false, ◌||◌, ◌&&◌}
use mathlib.Core.Option.{Option, none, some}
use mathlib.Core.List.{List, [], ◌∷◌, ◌++◌}
use native.Mathlib.Omega.{arith}
use text.Mathlib.Text.{◌==◌}
use text.Mathlib.TextEquality.{eq_iff}
use text.Mathlib.TextPositions.{eq_refl}
use apirun.Prelude.Tests.{if◌then◌else◌, Bool-cases}
use apirun.Prelude.Lists.{length, keep, All}
use apirun.Prelude.Maps.{Map, lookup, insert, keys, elem, Distinct, elem-snoc}

abbrev pub is_some {ℓ} : {A : Type ℓ} → Option A → Bool
is_some none = false
is_some (some a) = true

module _ {ℓ} {V : Type ℓ} where
  pub elem-keys : (k : String) (m : Map V) → elem k (keys m) ≡ is_some (lookup k m)
  unfolding elem lookup
  elem-keys k [] = refl
  elem-keys k ((j, v) ∷ m) = ground (arith, elem-keys k m)

  pub elem-keys-insert :
      (a k : String) (v : V) (m : Map V)
      → elem a (keys (insert k v m)) ≡ (k == a || elem a (keys m))
  unfolding elem insert
  elem-keys-insert a k v [] = refl
  elem-keys-insert a k v ((j, w) ∷ m) =
      ground (arith, eq_iff j k, eq_iff k a, eq_iff j a, elem-keys-insert a k v m)

  pub Distinct-insert :
      (k : String) (v : V) (m : Map V) → Distinct (keys m) → Distinct (keys (insert k v m))
  unfolding elem insert
  Distinct-insert k v [] h = (refl, tt)
  Distinct-insert k v ((j, w) ∷ m) h =
      ground (arith, eq_iff j k, eq_iff k j, elem-keys-insert j k v m, Distinct-insert k v m h.1)

pub Distinct-snoc :
    (xs : List String) (a : String) → Distinct xs → elem a xs ≡ false → Distinct (xs ++ a ∷ [])
unfolding elem
Distinct-snoc [] a d n = (refl, tt)
Distinct-snoc (x ∷ xs) a d n =
    ground (arith, eq_iff x a, eq_iff a x, elem-snoc x a xs, Distinct-snoc xs a d.1)

-- A list without one name.
without : String → List String → List String
without a [] = []
without a (x ∷ xs) = let rest = without a xs in if x == a then xs else x ∷ rest

length-without :
    (a : String) (xs : List String) → elem a xs ≡ true → suc (length (without a xs)) ≡ length xs
unfolding without elem
length-without a [] h = ground arith
length-without a (x ∷ xs) h = ground (arith, length-without a xs)

elem-without_ne :
    (a b : String) (xs : List String)
    → (a == b) ≡ false
    → elem b xs ≡ true
    → elem b (without a xs) ≡ true
unfolding without elem
elem-without_ne a b [] n h = h
elem-without_ne a b (x ∷ xs) n h =
    ground (arith, eq_iff x a, eq_iff x b, eq_iff a b, elem-without_ne a b xs)

without-subset :
    (a : String) (xs ys : List String)
    → elem a xs ≡ false
    → ((b : String) → elem b (a ∷ xs) ≡ true → elem b ys ≡ true)
    → (b : String) → elem b xs ≡ true
    → elem b (without a ys) ≡ true
unfolding elem
without-subset a xs ys n sub b h =
    elem-without_ne a b ys (ground (arith, eq_iff a b)) (sub b (ground arith))

-- Pairwise different names from a list are at most as many as the list has.
pub length-le_of_subset :
    (xs ys : List String)
    → Distinct xs
    → ((b : String) → elem b xs ≡ true → elem b ys ≡ true)
    → length xs ≤ length ys
length-le_of_subset [] ys d sub = omega arith
length-le_of_subset (x ∷ xs) ys d sub =
    let here : elem x ys ≡ true = sub x (unfold elem in rw eq_refl) in
    omega (
      arith,
      length-without x ys here,
      length-le_of_subset xs (without x ys) d.1 (without-subset x xs ys d.0 sub),
    )

-- As many different names as the list has are all of its names.
pub elem_of_length :
    (xs ys : List String)
    → Distinct xs
    → ((b : String) → elem b xs ≡ true → elem b ys ≡ true)
    → length ys ≤ length xs
    → (a : String) → elem a ys ≡ true
    → elem a xs ≡ true
unfolding elem
elem_of_length xs ys d sub short a h = elim (Bool-cases (elem a xs)) [
  | inl e ↦ e
  | inr e ↦ absurd (
      omega
        (arith, length-le_of_subset (a ∷ xs) ys (e, d) (λ b. ground (arith, eq_iff a b, sub b))))
]

pub length-keys {ℓ} : {V : Type ℓ} (m : Map V) → length (keys m) ≡ length m
length-keys [] = refl
length-keys (e ∷ m) = ap suc (length-keys m)

pub elem-keep :
    (p : String → Bool) (a : String) (xs : List String) → elem a (keep p xs) ≡ (elem a xs && p a)
unfolding elem keep
elem-keep p a [] = refl
elem-keep p a (x ∷ xs) = elim (Bool-cases (x == a)) [
  | inl e ↦ rw ((eq_iff x a).0 e) (ground (arith, elem-keep p a xs, eq_iff a a))
  | inr n ↦ ground (arith, elem-keep p a xs)
]

pub Distinct-keep : (p : String → Bool) (xs : List String) → Distinct xs → Distinct (keep p xs)
unfolding keep
Distinct-keep p [] d = tt
Distinct-keep p (x ∷ xs) d = ground (arith, elem-keep p x xs, Distinct-keep p xs d.1)

pub All-of_elem {ℓ} :
    (P : String → Type ℓ) (xs : List String) → ((a : String) → elem a xs ≡ true → P a) → All P xs
unfolding elem
All-of_elem P [] h = tt
All-of_elem P (x ∷ xs) h =
    (h x (ground (arith, eq_iff x x)), All-of_elem P xs (λ a e. h a (ground arith)))

-- A name that is no key of a map.
pub lookup-elem {ℓ} :
    {V : Type ℓ} (m : Map V) (name : String) → elem name (keys m) ≡ false → lookup name m ≡ none
unfolding lookup elem
lookup-elem [] name e = refl
lookup-elem ((k, v) ∷ m) name e = ground (arith, lookup-elem m name)
