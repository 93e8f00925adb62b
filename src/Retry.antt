-- ===== src/Retry.antt =====
-- internal/retry/retry.go: an operation on the database is tried again when it fails with an error
-- that may pass. Durations are in nanoseconds. There are no floats: the product of the first delay
-- and the power of the backoff factor is a field of the configuration, and so is strings.ToLower.
pub mod Attempts
pub mod Outcomes
use apirun.Prelude.{
  ℕ, zero, suc, ◌-◌, ◌*◌, String, Bool, true, false, not, Option, none, some, List, [], ◌∷◌, any,
  eqb, ltb, contains, ℤ, pos, negsuc, ltb_ℤ, if◌then◌else◌,
}

-- What errors.Is tells apart, and the text of an error.
pub data ErrorKind : Type 0 where
  canceled deadline_exceeded no_rows other : ErrorKind

pub record DbError : Type 0 where
  pub kind : ErrorKind
  pub message : String

pub record Config : Type 0 where
  pub max_retries : ℤ
  pub initial_delay : ℤ
  pub max_delay : ℤ
  -- time.Duration(float64(d) * math.Pow(factor, float64(n)))
  pub scale : ℤ → ℕ → ℤ
  pub retryable_errors : List String
  pub to_lower : String → String

-- DefaultRetryConfig; its factor is 2.
unfoldable pub default_retry_config : (ℤ → ℕ → ℤ) → (String → String) → Config
default_retry_config scale to_lower = record {
  max_retries = pos 3;
  initial_delay = pos 100_000_000;
  max_delay = pos 5_000_000_000;
  scale = scale;
  retryable_errors =
      "connection refused" ∷ "connection reset" ∷ "timeout" ∷ "temporary failure" ∷ "deadlock"
      ∷ "lock wait timeout" ∷ "database is locked" ∷ "connection lost" ∷ "broken pipe" ∷ [];
  to_lower = to_lower;
}

abbrev pub is_cancellation : ErrorKind → Bool
is_cancellation canceled = true
is_cancellation deadline_exceeded = true
is_cancellation no_rows = false
is_cancellation other = false

-- isRetryableError, for an error that is not nil
unfoldable pub is_retryable_error : Config → DbError → Bool
is_retryable_error rc e =
    if is_cancellation e.kind
    then false
    else any (λ pattern. contains (rc.to_lower e.message) pattern) rc.retryable_errors

-- calculateDelay, for an attempt that is not negative
unfoldable pub calculate_delay : Config → ℕ → ℤ
calculate_delay rc zero = rc.initial_delay
calculate_delay rc (suc attempt) =
    let delay = rc.scale rc.initial_delay attempt in
    if ltb_ℤ rc.max_delay delay then rc.max_delay else delay

pub data RetryError : Type 0 where
  -- the error as it is
  plain : DbError → RetryError
  cancelled_during_retry : DbError → RetryError
  -- after so many attempts, with the last error, if there was any
  failed_after : ℤ → Option DbError → RetryError

-- The number of rounds of `for attempt := 0; attempt <= config.MaxRetries; attempt++`.
abbrev pub rounds : ℤ → ℕ
rounds (pos n) = suc n
rounds (negsuc n) = 0

abbrev suc_of : ℤ → ℤ
suc_of (pos n) = pos (suc n)
suc_of (negsuc zero) = pos 0
suc_of (negsuc (suc n)) = negsuc n

-- An operation and a wait change a state `S`; an operation that succeeds returns no error, and a
-- wait returns the context's error when the context is done first.
module _ {S : Type 0} (rc : Config) (operation : S → Option DbError × S)
    (wait : ℤ → S → Option DbError × S) where
  -- The rest of the loop, `left` rounds of it, at the attempt `attempt`.
  unfoldable pub retry_loop : ℕ → ℕ → Option DbError → S → Option RetryError × S
  retry_loop zero attempt last s = (some (failed_after (suc_of rc.max_retries) last), s)
  retry_loop (suc left) attempt last s =
      let again = λ (s' : S) (e : DbError). retry_loop left (suc attempt) (some e) s' in
      let (result, s₁) = operation s in
      elim result [
        | none ↦ (none, s₁)
        | some e ↦
            let (interrupted, s₂) = wait (calculate_delay rc attempt) s₁ in
            if eqb left 0
            then (some (failed_after (suc_of rc.max_retries) (some e)), s₁)
            else if not (is_retryable_error rc e)
            then (some (plain e), s₁)
            else elim interrupted [
              | none ↦ again s₂ e
              | some c ↦ (some (cancelled_during_retry c), s₂)
            ]
      ]

  -- WithRetry, WithRetryQuery and WithRetryExec: what the operation returns beside its error is part
  -- of the state.
  unfoldable pub with_retry : S → Option RetryError × S
  with_retry = retry_loop (rounds rc.max_retries) 0 none
