-- ===== src/Retry/Attempts.antt =====
-- When WithRetry succeeds.
use apirun.Prelude.{
  ℕ, zero, suc, ◌+◌, ◌≤◌, ◌<◌, ◌≡◌, ◌↔◌, true, Option, none, some, arith, ℤ, Option-cases, inl, inr,
}
use apirun.Retry.{
  DbError, Config, is_retryable_error, calculate_delay, rounds, retry_loop, with_retry,
}

module _ {S : Type 0} (rc : Config) (operation : S → Option DbError × S)
    (wait : ℤ → S → Option DbError × S) where
  -- From the attempt `i`, `n` attempts failed with errors that may pass and were waited out.
  pub data Retried : ℕ → ℕ → S → S → Type 0 where
    here : {i : ℕ} {s : S} → Retried i 0 s s
    again :
        {i n : ℕ} {s t : S} (e : DbError)
        → (operation s).0 ≡ some e
        → is_retryable_error rc e ≡ true
        → (wait (calculate_delay rc i) (operation s).1).0 ≡ none
        → Retried (suc i) n (wait (calculate_delay rc i) (operation s).1).1 t
        → Retried i (suc n) s t

  -- Within `left` attempts the operation succeeds, at the state `t`, behind `n` that were retried.
  pub record Succeeds (left i : ℕ) (s s' : S) : Type 0 where
    pub failures : ℕ
    pub state : S
    pub enough : failures < left
    pub retried : Retried i failures s state
    pub success : operation state ≡ (none, s')

  loop_sound :
      (left i : ℕ) (last : Option DbError) (s s' : S)
      → retry_loop rc operation wait left i last s ≡ (none, s')
      → Succeeds left i s s'
  unfolding retry_loop
  loop_sound zero i last s s' h = cc
  loop_sound (suc left) i last s s' h = elim (Option-cases (operation s).0) [
    | inl done ↦ record {
      failures = 0;
      state = s;
      enough = omega arith;
      retried = here;
      success = ground arith;
    }
    | inr (e, failed) ↦
        let s₁ = (operation s).1 in
        let s₂ = (wait (calculate_delay rc i) s₁).1 in
        let retry : (is_retryable_error rc e ≡ true)
            × ((wait (calculate_delay rc i) s₁).0 ≡ none)
            × (retry_loop rc operation wait left (suc i) (some e) s₂ ≡ (none, s')) =
          ground arith in
        let later = loop_sound left (suc i) (some e) s₂ s' retry.2 in
        record {
          failures = suc later.failures;
          state = later.state;
          enough = omega (arith, later.enough);
          retried = again e failed retry.0 retry.1 later.retried;
          success = later.success;
        }
  ]

  loop_complete :
      (left i n : ℕ) (last : Option DbError) (s t s' : S)
      → n < left
      → Retried i n s t
      → operation t ≡ (none, s')
      → retry_loop rc operation wait left i last s ≡ (none, s')
  unfolding retry_loop
  loop_complete zero i n last s t s' h r done = absurd (omega arith)
  loop_complete (suc left) i n last s t s' h here done = ground arith
  loop_complete (suc left) i (suc n) last s t s' h (again e failed retryable waited r) done =
      ground (
        arith,
        loop_complete left (suc i) n (some e) (wait (calculate_delay rc i) (operation s).1).1 t s'
            (omega arith) r done,
      )

  -- WithRetry succeeds exactly when, behind at most MaxRetries attempts that all failed with
  -- errors that may pass and were waited out, an attempt succeeds; the state is then the one that
  -- this attempt left. With a negative MaxRetries it never succeeds.
  pub with_retry-ok_iff :
      (s s' : S)
      → (with_retry rc operation wait s ≡ (none, s')) ↔ Succeeds (rounds rc.max_retries) 0 s s'
  unfolding with_retry
  with_retry-ok_iff s s' = (
    loop_sound (rounds rc.max_retries) 0 none s s',
    λ r.
        loop_complete (rounds rc.max_retries) 0 r.failures none s r.state s' r.enough r.retried
          r.success,
  )

  -- The number of the attempts, as a count of the operation's calls.
  module _ (calls : S → ℕ) (counts : (s : S) → calls (operation s).1 ≡ suc (calls s))
      (idle : (d : ℤ) (s : S) → calls (wait d s).1 ≡ calls s) where
    calls-retry_loop :
        (left i : ℕ) (last : Option DbError) (s : S)
        → calls (retry_loop rc operation wait left i last s).1 ≤ calls s + left
    unfolding retry_loop
    calls-retry_loop zero i last s = omega arith
    calls-retry_loop (suc left) i last s =
        let s₁ = (operation s).1 in
        let s₂ = (wait (calculate_delay rc i) s₁).1 in
        elim (Option-cases (operation s).0) [
          | inl done ↦ ground (arith, counts s)
          | inr (e, failed) ↦ ground (
            arith,
            counts s,
            idle (calculate_delay rc i) s₁,
            calls-retry_loop left (suc i) (some e) s₂,
          )
        ]

    -- WithRetry calls the operation at most MaxRetries + 1 times, and not at all when MaxRetries is
    -- negative.
    pub calls-with_retry :
        (s : S) → calls (with_retry rc operation wait s).1 ≤ calls s + rounds rc.max_retries
    unfolding with_retry
    calls-with_retry s = calls-retry_loop (rounds rc.max_retries) 0 none s
