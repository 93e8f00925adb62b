-- ===== src/Retry/Outcomes.antt =====
-- What holds of the state behind WithRetry.
use apirun.Prelude.{
  ℕ, zero, suc, ◌≡◌, ◌⊎◌, refl, Option, none, some, eqb, ℤ, Bool-cases, Option-cases, inl, inr,
}
use apirun.Retry.{
  DbError, Config, RetryError, is_retryable_error, calculate_delay, rounds, retry_loop, with_retry,
}

-- Either a success, with a state that `Q` holds of, or an error, with one that `P` holds of.
abbrev pub Ends : {S : Type 0} → (P Q : S → Type 0) → Option RetryError × S → Type 0
Ends P Q r = ((r.0 ≡ none) × Q r.1) ⊎ ((e : RetryError) × (r.0 ≡ some e) × P r.1)

module _ {S : Type 0} (rc : Config) (operation : S → Option DbError × S)
    (wait : ℤ → S → Option DbError × S) (P Q : S → Type 0)
    (succeeds : (s : S) → P s → (operation s).0 ≡ none → Q (operation s).1)
    (fails : (s : S) (e : DbError) → P s → (operation s).0 ≡ some e → P (operation s).1)
    (waits : (d : ℤ) (s : S) → P s → P (wait d s).1) where
  retry_loop-Ends :
      (left i : ℕ) (last : Option DbError) (s : S)
      → P s
      → Ends P Q (retry_loop rc operation wait left i last s)
  unfolding retry_loop
  retry_loop-Ends zero i last s p = inr (_, refl, p)
  retry_loop-Ends (suc left) i last s p =
      let s₁ = (operation s).1 in
      let s₂ = (wait (calculate_delay rc i) s₁).1 in
      elim (Option-cases (operation s).0) [
        | inl done ↦ rw (done, retry_loop) (inl (refl, succeeds s p done))
        | inr (e, failed) ↦
            let p₁ = fails s e p failed in
            let p₂ = waits (calculate_delay rc i) s₁ p₁ in
            elim (Bool-cases (eqb left 0)) [
              | inl end ↦ rw (failed, end, retry_loop) (inr (_, refl, p₁))
              | inr more ↦ elim (Bool-cases (is_retryable_error rc e)) [
                | inr final ↦ rw (failed, more, final, retry_loop) (inr (_, refl, p₁))
                | inl again ↦ elim (Option-cases (wait (calculate_delay rc i) s₁).0) [
                  | inl waited ↦
                      rw (failed, more, again, waited, retry_loop)
                        (retry_loop-Ends left (suc i) (some e) s₂ p₂)
                  | inr (c, cancelled) ↦
                      rw (failed, more, again, cancelled, retry_loop) (inr (_, refl, p₂))
                ]
              ]
            ]
      ]

  pub with_retry-Ends : (s : S) → P s → Ends P Q (with_retry rc operation wait s)
  unfolding with_retry
  with_retry-Ends s p = retry_loop-Ends (rounds rc.max_retries) 0 none s p
