-- ===== src/Prelude/Ordered.antt =====
-- Sorting by a total preorder: the result is ordered and has the same items, each as often.
use Prim.Native.Nat.{ℕ, suc}
use mathlib.Core.Path.{◌≡◌, refl}
use mathlib.Core.Logic.{inl, inr}
use mathlib.Core.Bool.{Bool, true, false, ◌&&◌, ◌||◌}
use mathlib.Core.List.{List, [], ◌∷◌}
use native.Mathlib.Omega.{arith}
use apirun.Prelude.Tests.{if◌then◌else◌, Bool-cases}
use apirun.Prelude.Lists.{All, All-map, keep, any}
use apirun.Prelude.Sorting.{insert_sorted, sort_by}

-- The number of the items that pass a test.
unfoldable pub tally {ℓ} : {A : Type ℓ} → (A → Bool) → List A → ℕ
tally p [] = 0
tally p (x ∷ xs) = let rest = tally p xs in if p x then suc rest else rest

abbrev pub Ordered {ℓ} : {A : Type ℓ} → (A → A → Bool) → List A → Type 0
Ordered le [] = Unit
Ordered le (x ∷ xs) = All (λ y. le x y ≡ true) xs × Ordered le xs

module _ {ℓ} {A : Type ℓ} where
  pub tally-keep : (p q : A → Bool) (xs : List A) → tally p (keep q xs) ≡ tally (λ x. p x && q x) xs
  unfolding tally keep
  tally-keep p q [] = refl
  tally-keep p q (x ∷ xs) = ground (arith, tally-keep p q xs)

  pub tally_none : (p : A → Bool) (xs : List A) → ((x : A) → p x ≡ false) → tally p xs ≡ 0
  unfolding tally
  tally_none p [] h = refl
  tally_none p (x ∷ xs) h = ground (arith, h x, tally_none p xs h)

module _ {ℓ} {A : Type ℓ} (le : A → A → Bool) where
  tally-insert_sorted :
      (p : A → Bool) (a : A) (xs : List A) → tally p (insert_sorted le a xs) ≡ tally p (a ∷ xs)
  unfolding tally insert_sorted
  tally-insert_sorted p a [] = refl
  tally-insert_sorted p a (x ∷ xs) = ground (arith, tally-insert_sorted p a xs)

  pub tally-sort_by : (p : A → Bool) (xs : List A) → tally p (sort_by le xs) ≡ tally p xs
  unfolding tally sort_by
  tally-sort_by p [] = refl
  tally-sort_by p (x ∷ xs) =
      ground (arith, tally-insert_sorted p x (sort_by le xs), tally-sort_by p xs)

  any-insert_sorted :
      (p : A → Bool) (a : A) (xs : List A) → any p (insert_sorted le a xs) ≡ (p a || any p xs)
  unfolding any insert_sorted
  any-insert_sorted p a [] = refl
  any-insert_sorted p a (x ∷ xs) = ground (arith, any-insert_sorted p a xs)

  pub any-sort_by : (p : A → Bool) (xs : List A) → any p (sort_by le xs) ≡ any p xs
  unfolding any sort_by
  any-sort_by p [] = refl
  any-sort_by p (x ∷ xs) = ground (arith, any-insert_sorted p x (sort_by le xs), any-sort_by p xs)

  All-insert_sorted :
      (P : A → Type 0) (a : A) (xs : List A) → P a → All P xs → All P (insert_sorted le a xs)
  unfolding insert_sorted
  All-insert_sorted P a [] p h = (p, tt)
  All-insert_sorted P a (y ∷ ys) p h = elim (Bool-cases (le a y)) [
    | inl before ↦ rw before (p, h)
    | inr behind ↦ rw behind (h.0, All-insert_sorted P a ys p h.1)
  ]

  module _ (total : (a b : A) → le a b ≡ false → le b a ≡ true)
      (trans : (a b c : A) → le a b ≡ true → le b c ≡ true → le a c ≡ true) where
    insert_sorted-Ordered :
        (a : A) (xs : List A) → Ordered le xs → Ordered le (insert_sorted le a xs)
    unfolding insert_sorted
    insert_sorted-Ordered a [] s = (tt, tt)
    insert_sorted-Ordered a (y ∷ ys) s = elim (Bool-cases (le a y)) [
      | inl before ↦ rw before ((before, All-map _ _ ys (λ z. trans a y z before) s.0), s)
      | inr behind ↦
          rw behind
            (All-insert_sorted _ a ys (total a y behind) s.0, insert_sorted-Ordered a ys s.1)
    ]

    pub sort_by-Ordered : (xs : List A) → Ordered le (sort_by le xs)
    unfolding sort_by
    sort_by-Ordered [] = tt
    sort_by-Ordered (x ∷ xs) = insert_sorted-Ordered x (sort_by le xs) (sort_by-Ordered xs)
