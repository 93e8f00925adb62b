-- ===== src/Store/Versions.antt =====
-- The recorded versions: what Apply, Remove and SetVersion leave.
use apirun.Prelude.{
  ℕ, ◌≡◌, refl, Bool, true, List, [], ◌∷◌, arith, ℤ, pos, negsuc, Result, ok, err, Bool-cases, inl,
  inr, any, eqb, eqb_iff, ltb, leb, keep, snoc, subst, sym, ap, ◌∙◌, ok-injective, ◌&&◌, ◌||◌,
}
use apirun.Retry.{Config}
use apirun.Store.{
  Db, World, StoreError, target_above_current, exec, delete_above, max_version, current_version,
  set_version_from, set_version,
}
use apirun.Store.Laws.{Effect, exec-Effect, query-Effect}

-- The versions of a table behind INSERT OR IGNORE and the two kinds of DELETE.
pub any-le_max : (v : ℕ) (vs : List ℕ) → any (eqb v) vs ≡ true → leb v (max_version vs) ≡ true
unfolding any max_version
any-le_max v [] h = cc
any-le_max v (u ∷ vs) h = ground (arith, any-le_max v vs)

pub max-le :
    (t : ℕ) (vs : List ℕ)
    → ((v : ℕ) → any (eqb v) vs ≡ true → leb v t ≡ true)
    → leb (max_version vs) t ≡ true
unfolding any max_version
max-le t [] h = ground arith
max-le t (u ∷ vs) h =
    let tail = max-le t vs (λ v e. ground (arith, h v)) in ground (arith, h u, tail)

pub any-keep :
    (v : ℕ) (p : ℕ → Bool) (vs : List ℕ) → any (eqb v) (keep p vs) ≡ (p v && any (eqb v) vs)
unfolding any keep
any-keep v p [] = ground arith
any-keep v p (u ∷ vs) = elim (Bool-cases (eqb v u)) [
  | inl e ↦ rw ((eqb_iff v u).0 e) (ground (arith, any-keep v p vs))
  | inr n ↦ ground (arith, any-keep v p vs)
]

keep_le_max : (t : ℕ) (vs : List ℕ) → leb (max_version vs) t ≡ true → keep (λ u. leb u t) vs ≡ vs
unfolding keep max_version
keep_le_max t [] h = refl
keep_le_max t (u ∷ vs) h = ground (arith, keep_le_max t vs)

-- What SetVersion deletes.
unfoldable pub versions_upto : ℤ → List ℕ → List ℕ
versions_upto (pos t) vs = keep (λ u. leb u t) vs
versions_upto (negsuc n) vs = []

pub any-snoc : (v u : ℕ) (vs : List ℕ) → any (eqb v) (snoc vs u) ≡ (eqb v u || any (eqb v) vs)
unfolding any
any-snoc v u [] = ground arith
any-snoc v u (x ∷ vs) = ground (arith, any-snoc v u vs)

pub Effect-from :
    {A : Type 0} (a : A) (db : Db) (w w₁ : World) (r : Result StoreError A × World)
    → w₁.db ≡ w.db
    → w₁.now ≡ w.now
    → Effect a db w₁ r
    → Effect a db w r
Effect-from a db w w₁ r same clock x = record {
  outcome = elim x.outcome [ inl y ↦ inl y | inr (e, f, d) ↦ inr (e, f, d ∙ same) ];
  same_clock = x.same_clock ∙ clock;
}

module _ (cfg : Config) (w : World) where
  exec-from :
      (statement : Db → Db) (w₁ : World)
      → w₁.db ≡ w.db
      → w₁.now ≡ w.now
      → Effect tt (statement w.db) w (exec cfg statement w₁)
  exec-from statement w₁ same clock =
      Effect-from tt (statement w.db) w w₁ (exec cfg statement w₁) same clock (
        subst (λ db. Effect tt (statement db) w₁ (exec cfg statement w₁)) same
          (exec-Effect cfg w₁ statement))

  set_version_from-Effect :
      (target : ℤ) (r : Result StoreError ℕ) (w₁ : World)
      → Effect (max_version w.db.versions) w.db w (r, w₁)
      → Effect tt
          (record w.db { versions = versions_upto target w.db.versions })
          w
          (set_version_from cfg target (r, w₁))
  unfolding versions_upto
  set_version_from-Effect target (err f) w₁ x = record {
    outcome = elim x.outcome [ inl (e, d) ↦ cc | inr (g, e, d) ↦ inr (f, refl, d) ];
    same_clock = x.same_clock;
  }
  set_version_from-Effect (negsuc n) (ok c) w₁ x =
      exec-from (λ db. record db { versions = [] }) w₁
        (elim x.outcome [ inl (e, d) ↦ d | inr (g, e, d) ↦ d ]) x.same_clock
  set_version_from-Effect (pos t) (ok c) w₁ x =
      let same : w₁.db ≡ w.db = elim x.outcome [ inl (e, d) ↦ d | inr (g, e, d) ↦ d ] in
      let current : c ≡ max_version w.db.versions = elim x.outcome [
        | inl (e, d) ↦ ok-injective e
        | inr (g, e, d) ↦ cc
      ] in
      elim (Bool-cases (ltb c t)) [
        | inl below ↦
            rw (below, set_version_from)
              (record {
                outcome = inr (target_above_current (pos t) c, refl, same);
                same_clock = x.same_clock;
              })
        | inr reach ↦ elim (Bool-cases (eqb t c)) [
          | inl equal ↦
              let kept : keep (λ u. leb u t) w.db.versions ≡ w.db.versions =
                keep_le_max t w.db.versions (ground arith) in
              rw (reach, equal, set_version_from)
                (record {
                  outcome = inl (refl, same ∙ ap (λ vs. record w.db { versions = vs }) (sym kept));
                  same_clock = x.same_clock;
                })
          | inr less ↦
              rw (reach, less, set_version_from) (exec-from (delete_above t) w₁ same x.same_clock)
        ]
      ]

  -- SetVersion either deletes exactly the versions above the target (all of them for a negative
  -- target) and touches nothing else, or fails and leaves the tables as they were.
  pub set_version-Effect :
      (target : ℤ)
      → Effect tt
          (record w.db { versions = versions_upto target w.db.versions })
          w
          (set_version cfg target w)
  unfolding set_version current_version
  set_version-Effect target =
      set_version_from-Effect target (current_version cfg w).0 (current_version cfg w).1
        (query-Effect cfg w (λ db. max_version db.versions))
