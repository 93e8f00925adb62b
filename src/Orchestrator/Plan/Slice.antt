-- ===== src/Orchestrator/Plan/Slice.antt =====
-- A range of an order with distinct names, by positions.
use apirun.Prelude.{
  ℕ, zero, suc, ◌<◌, String, ◌≡◌, refl, ◌∙◌, Bool, true, false, ◌&&◌, ◌||◌, Option, none, some,
  List, [], ◌∷◌, arith, length, elem, take, drop, keep, leb, ltb, ◌==◌, eq_iff, Distinct,
  if◌then◌else◌, Bool-cases, inl, inr, sym,
}
use apirun.Orchestrator.Graph.Cycle.{index_of}
use apirun.Orchestrator.Graph.Order.{position}
use apirun.Orchestrator.Plan.{
  select_range, filter_stages_in_range, filter_stages_in_range_down, range_start, range_end,
  range_end_down,
}

pub index_of-position :
    (a : String) (xs : List String)
    → index_of a xs ≡ (if elem a xs then some (position a xs) else none)
unfolding index_of position elem
index_of-position a [] = refl
index_of-position a (x ∷ xs) = ground (arith, index_of-position a xs)

pub position_lt : (a : String) (xs : List String) → elem a xs ≡ true → position a xs < length xs
unfolding position elem
position_lt a [] h = ground arith
position_lt a (x ∷ xs) h = ground (arith, position_lt a xs)

pub keep-congr :
    (p q : String → Bool) (xs : List String)
    → ((a : String) → elem a xs ≡ true → p a ≡ q a)
    → keep p xs ≡ keep q xs
unfolding keep elem
keep-congr p q [] h = refl
keep-congr p q (x ∷ xs) h =
    ground (arith, h x, eq_iff x x, keep-congr p q xs (λ a e. h a (ground arith)))

keep_none : (p : String → Bool) (xs : List String) → ((a : String) → p a ≡ false) → keep p xs ≡ []
unfolding keep
keep_none p [] h = refl
keep_none p (x ∷ xs) h = ground (arith, h x, keep_none p xs h)

abbrev between : ℕ → ℕ → List String → String → Bool
between s e xs a = leb s (position a xs) && ltb (position a xs) e

-- Behind the first name all positions are one higher.
between-tail :
    (s e : ℕ) (x : String) (xs : List String) (a : String)
    → elem x xs ≡ false
    → elem a xs ≡ true
    → between (suc s) (suc e) (x ∷ xs) a ≡ between s e xs a
unfolding position
between-tail s e x xs a n h = ground (arith, eq_iff x a)

between-tail_zero :
    (e : ℕ) (x : String) (xs : List String) (a : String)
    → elem x xs ≡ false
    → elem a xs ≡ true
    → between 0 (suc e) (x ∷ xs) a ≡ between 0 e xs a
unfolding position
between-tail_zero e x xs a n h = ground (arith, eq_iff x a)

-- A slice keeps the names whose positions it covers.
pub slice-keep :
    (s e : ℕ) (xs : List String) → Distinct xs → drop s (take e xs) ≡ keep (between s e xs) xs
unfolding keep position
slice-keep zero zero xs d = sym (keep_none (between 0 0 xs) xs (λ a. ground arith))
slice-keep (suc s) zero xs d = sym (keep_none (between (suc s) 0 xs) xs (λ a. ground arith))
slice-keep zero (suc e) [] d = refl
slice-keep (suc s) (suc e) [] d = refl
slice-keep zero (suc e) (x ∷ xs) d =
    let tail =
      keep-congr (between 0 (suc e) (x ∷ xs)) (between 0 e xs) xs
        (λ a h. between-tail_zero e x xs a d.0 h) in
    ground (arith, slice-keep zero e xs d.1, eq_iff x x, tail)
slice-keep (suc s) (suc e) (x ∷ xs) d =
    let tail =
      keep-congr (between (suc s) (suc e) (x ∷ xs)) (between s e xs) xs
        (λ a h. between-tail s e x xs a d.0 h) in
    ground (arith, slice-keep s e xs d.1, eq_iff x x, tail)

-- The stages that a range selects, by position.
pub select_range-keep :
    (order : List String) (start end : ℕ)
    → Distinct order
    → select_range order (some start) (some end) ≡ keep (between start end order) order
unfolding select_range
select_range-keep order start end d = elim (Bool-cases (leb end start)) [
  | inl empty ↦ rw empty (sym (keep_none (between start end order) order (λ a. ground arith)))
  | inr range ↦ rw range (slice-keep start end order d)
]

select_range-none : (order : List String) (end : Option ℕ) → select_range order none end ≡ []
unfolding select_range
select_range-none order end = refl

select_range-some-none :
    (order : List String) (start : ℕ) → select_range order (some start) none ≡ []
unfolding select_range
select_range-some-none order start = refl

keep_all :
    (p : String → Bool) (xs : List String)
    → ((a : String) → elem a xs ≡ true → p a ≡ true)
    → keep p xs ≡ xs
unfolding keep elem
keep_all p [] h = refl
keep_all p (x ∷ xs) h = ground (arith, h x, eq_iff x x, keep_all p xs (λ a e. h a (ground arith)))

-- Whether a stage stands in the range: not before `from` and not behind `to`, where an empty name
-- is no bound.
abbrev pub in_range : List String → String → String → String → Bool
in_range order from to a =
    (from == "" || leb (position from order) (position a order))
    && (to == "" || leb (position a order) (position to order))

-- For down, the stage `to` itself is left out.
abbrev pub in_range_down : List String → String → String → String → Bool
in_range_down order from to a =
    (from == "" || leb (position from order) (position a order))
    && (to == "" || ltb (position a order) (position to order))

-- A bound is empty or a stage of the order.
abbrev pub is_bound : List String → String → Bool
is_bound order name = name == "" || elem name order

module _ (order : List String) (from to : String) (d : Distinct order) where
  abbrev lower : ℕ
  lower = if from == "" then 0 else position from order

  start_eq : range_start order from ≡ (if is_bound order from then some lower else none)
  start_eq = ground (arith, index_of-position from order)

  -- The choice between the whole order and the selected range.
  module _ (end : Option ℕ) (upper : ℕ) (inside : String → Bool)
      (end_eq : end ≡ (if is_bound order to then some upper else none))
      (whole : (from == "" && to == "") ≡ true
        → (a : String) → elem a order ≡ true
        → inside a ≡ true)
      (same : (a : String) → elem a order ≡ true → between lower upper order a ≡ inside a) where
    choose-keep :
        (if from == "" && to == "" then order else select_range order (range_start order from) end)
        ≡ (if is_bound order from && is_bound order to then keep inside order else [])
    choose-keep =
        let cut =
          select_range-keep order lower upper d
          ∙ keep-congr (between lower upper order) inside order same in
        elim (Bool-cases (from == "" && to == "")) [
          | inl all ↦ ground (arith, keep_all inside order (whole all))
          | inr some_bound ↦
              rw (start_eq, end_eq)
                (ground (
                  arith,
                  cut,
                  select_range-none order end,
                  select_range-some-none order lower,
                  select_range-none order (some upper),
                  select_range-none order none,
                ))
        ]

  -- The range of an up execution: when both bounds are empty or in the order, exactly the stages
  -- of the order from `from` to `to`, both included, in the same order; otherwise nothing.
  pub filter_stages_in_range-keep : filter_stages_in_range order from to ≡ (
      if is_bound order from && is_bound order to then keep (in_range order from to) order else [])
  unfolding filter_stages_in_range
  filter_stages_in_range-keep =
      choose-keep (range_end order to) (if to == "" then length order else suc (position to order))
        (in_range order from to) (ground (arith, index_of-position to order))
        (λ all a h. ground arith) (λ a h. ground (arith, position_lt a order h))

  -- The range of a down execution is the same, but that it ends in front of `to`.
  pub filter_stages_in_range_down-keep : filter_stages_in_range_down order from to ≡ (
      if is_bound order from && is_bound order to
      then keep (in_range_down order from to) order
      else [])
  unfolding filter_stages_in_range_down
  filter_stages_in_range_down-keep =
      choose-keep (range_end_down order to) (if to == "" then length order else position to order)
        (in_range_down order from to) (ground (arith, index_of-position to order))
        (λ all a h. ground arith) (λ a h. ground (arith, position_lt a order h))
