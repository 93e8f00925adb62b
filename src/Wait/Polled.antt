-- ===== src/Wait/Polled.antt =====
-- When waiting for an endpoint ends, and how.
use apirun.Prelude.{
  ℕ, zero, suc, ◌+◌, ◌≡◌, ◌≢◌, ◌≤◌, ◌<◌, refl, sym, subst, true, false, none, some, ltb_ℤ, add_ℤ, ℤ,
  trim_space, ◌==◌, ok, Bool-cases, Option-cases, inl, inr, arith, eqb, eqb_iff,
}
use apirun.Env.{Env}
use apirun.Wait.{
  WaitConfig, ClientConfig, WaitParams, TlsConfig, Surroundings, perform_http_request, is_answer,
  poll, do_wait, parse_wait_config, setup_tls_config,
}

module _ (w : Surroundings) (tls : TlsConfig) (params : WaitParams) (deadline : ℤ) where
  -- The n-th probe gets the answer that is waited for.
  abbrev pub Expected : ℕ → Type 0
  Expected n =
      is_answer w params.expected (perform_http_request w tls params.method params.url n) ≡ true

  -- Behind the n-th probe the deadline is not over and the context is not done.
  abbrev pub Waiting : ℕ → Type 0
  Waiting n = (ltb_ℤ deadline (w.clock n) ≡ false) × (w.done n ≡ none)

  poll_arrives :
      (fuel n m : ℕ)
      → n ≤ m
      → m < n + fuel
      → Expected m
      → ((i : ℕ) → n ≤ i → i < m → Waiting i)
      → poll w tls params deadline fuel n ≡ some (ok tt)
  unfolding poll
  poll_arrives zero n m le lt e wait = absurd (omega arith)
  poll_arrives (suc fuel) n m le lt e wait =
      elim (Bool-cases
        (is_answer w params.expected (perform_http_request w tls params.method params.url n))) [
          | inl now ↦ rw (now, poll) refl
          | inr later ↦ elim (Bool-cases (eqb n m)) [
            | inl here ↦
                let same : n ≡ m = (eqb_iff n m).0 here in
                absurd (let e' = subst Expected (sym same) e in cc)
            | inr there ↦
                let quiet = wait n (omega arith) (ground arith) in
                rw (later, quiet.0, quiet.1, poll)
                  (poll_arrives fuel (suc n) m (ground arith) (omega arith) e
                    (λ i a b. wait i (omega arith) b))
          ]
        ]

  poll_ends :
      (fuel n m : ℕ)
      → n ≤ m
      → m < n + fuel
      → ltb_ℤ deadline (w.clock m) ≡ true
      → poll w tls params deadline fuel n ≢ none
  unfolding poll
  poll_ends zero n m le lt late = absurd (omega arith)
  poll_ends (suc fuel) n m le lt late =
      elim (Bool-cases
        (is_answer w params.expected (perform_http_request w tls params.method params.url n))) [
          | inl now ↦ rw (now, poll) (λ h. cc)
          | inr later ↦ elim (Bool-cases (ltb_ℤ deadline (w.clock n))) [
            | inl over ↦ rw (later, over, poll) (λ h. cc)
            | inr time_left ↦ elim (Option-cases (w.done n)) [
              | inr (e, done) ↦ rw (later, time_left, done, poll) (λ h. cc)
              | inl running ↦ elim (Bool-cases (eqb n m)) [
                | inl here ↦
                    let same : n ≡ m = (eqb_iff n m).0 here in
                    absurd (
                      let e' = subst (λ k. ltb_ℤ deadline (w.clock k) ≡ false) same time_left in cc)
                | inr there ↦
                    rw (later, time_left, running, poll)
                      (poll_ends fuel (suc n) m (ground arith) (omega arith) late)
              ]
            ]
          ]
        ]

  poll_answered :
      (fuel n : ℕ)
      → poll w tls params deadline fuel n ≡ some (ok tt)
      → (m : ℕ) × (n ≤ m) × Expected m
  unfolding poll
  poll_answered zero n h = absurd (let g = h in cc)
  poll_answered (suc fuel) n h =
      elim (Bool-cases
        (is_answer w params.expected (perform_http_request w tls params.method params.url n))) [
          | inl now ↦ (n, omega arith, now)
          | inr later ↦ elim (Bool-cases (ltb_ℤ deadline (w.clock n))) [
            | inl over ↦ absurd (let g = rw (later, over, poll) at h in cc)
            | inr time_left ↦ elim (Option-cases (w.done n)) [
              | inr (e, done) ↦ absurd (let g = rw (later, time_left, done, poll) at h in cc)
              | inl running ↦
                  let rest =
                    poll_answered fuel (suc n) (rw (later, time_left, running, poll) at h) in
                  (rest.0, omega (arith, rest.1), rest.2)
            ]
          ]
        ]

module _ (w : Surroundings) (fuel : ℕ) (env : Env) (wc : WaitConfig) (client : ClientConfig) where
  abbrev tls_of : TlsConfig
  tls_of = setup_tls_config w client

  abbrev params_of : WaitParams
  params_of = parse_wait_config w wc env

  abbrev deadline_of : ℤ
  deadline_of = add_ℤ w.started params_of.timeout

  -- DoWait on a URL that is not blank succeeds when a probe that the fuel suffices for gets the
  -- expected status, and behind each probe before it the deadline is not over and the context is not
  -- done: the wait is not given up early.
  pub do_wait_succeeds :
      (m : ℕ)
      → (trim_space wc.url == "") ≡ false
      → m < fuel
      → Expected w tls_of params_of deadline_of m
      → ((i : ℕ) → i < m → Waiting w tls_of params_of deadline_of i)
      → do_wait w fuel env wc client ≡ some (ok tt)
  unfolding do_wait
  do_wait_succeeds m filled lt e wait = rw filled (
      poll_arrives w tls_of params_of deadline_of fuel 0 m (omega arith) (omega arith) e
        (λ i a b. wait i b))

  -- On a URL that is not blank, DoWait returns when the time behind a probe that the fuel suffices for
  -- is over the deadline, and when it returns no error, some probe has got the expected status.
  pub do_wait_ends :
      (m : ℕ)
      → (trim_space wc.url == "") ≡ false
      → m < fuel
      → ltb_ℤ deadline_of (w.clock m) ≡ true
      → (do_wait w fuel env wc client ≢ none)
        × (do_wait w fuel env wc client ≡ some (ok tt)
            → (i : ℕ) × Expected w tls_of params_of deadline_of i)
  unfolding do_wait
  do_wait_ends m filled lt late = rw filled (
    poll_ends w tls_of params_of deadline_of fuel 0 m (omega arith) (omega arith) late,
    λ h. let x = poll_answered w tls_of params_of deadline_of fuel 0 h in (x.0, x.2),
  )
