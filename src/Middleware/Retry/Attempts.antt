-- ===== src/Middleware/Retry/Attempts.antt =====
-- How the loop of internal/middleware/retry.go ends.
use balance_x.Middleware.Retry.{
  Action, Call, retry_loop, Writer, is_retryable, apply_all, left_early, finish, new_writer, retry,
  attempts_or_default,
}
use balance_x.Common.{
  ℕ, zero, suc, ◌+◌, ◌<◌, ◌≡◌, Bool, true, false, ◌&&◌, ltb, ◌==◌, String, List, Option, ◌⊎◌, inl,
  inr, arith, Bool-cases, ap,
}
use balance_x.Common.Int.{ℤ, pos, negsuc}

module _ {S : Type 0} (itoa : ℕ → String) (next : ℕ → S → S × List Action) (cancelled : ℕ → Bool)
    (context : Option ℕ) where
  -- The state before the attempt that comes `j` after attempt `a`, its writer, and whether the pause
  -- before it is cut short.
  abbrev pub state_at : ℕ → S → ℕ → S
  state_at a s zero = s
  state_at a s (suc j) = state_at (a + 1) (next a s).0 j

  abbrev pub writer_at : ℕ → S → ℕ → Writer
  writer_at a s zero = apply_all (next a s).1 new_writer
  writer_at a s (suc j) = writer_at (a + 1) (next a s).0 j

  abbrev pub is_interrupted : ℕ → ℕ → Bool
  is_interrupted a zero = ltb 1 a && cancelled a
  is_interrupted a (suc j) = is_interrupted (a + 1) j

  -- The attempts before the `k`-th are neither interrupted nor answered below 500.
  abbrev pub GoesOn : ℕ → S → ℕ → Type 0
  GoesOn a s k =
      (j : ℕ)
      → j < k
      → (is_interrupted a j ≡ false) × (is_retryable (writer_at a s j).status_code ≡ true)

  abbrev pub Answers : ℕ → ℕ → S → S × List Call → Type 0
  Answers n a s out =
      (k : ℕ) × (k < n)
      × GoesOn a s k
      × (is_interrupted a k ≡ false)
      × (is_retryable (writer_at a s k).status_code ≡ true → suc k ≡ n)
      × (out ≡ (state_at a s (suc k), finish itoa context (writer_at a s k)))

  abbrev pub Leaves : ℕ → ℕ → S → S × List Call → Type 0
  Leaves n a s out =
      (k : ℕ) × (k < n)
      × GoesOn a s k
      × (is_interrupted a k ≡ true)
      × (out ≡ (state_at a s k, left_early))

  GoesOn-suc :
      (a k : ℕ) (s : S)
      → is_interrupted a 0 ≡ false
      → is_retryable (writer_at a s 0).status_code ≡ true
      → GoesOn (a + 1) (next a s).0 k
      → GoesOn a s (suc k)
  GoesOn-suc a k s stay again h zero later = (stay, again)
  GoesOn-suc a k s stay again h (suc j) later = h j (omega arith)

  retry_loop-Ends :
      (m n a : ℕ) (s : S)
      → 0 < n
      → n + a ≡ suc m
      → Answers n a s (retry_loop itoa next cancelled context m n a s)
        ⊎ Leaves n a s (retry_loop itoa next cancelled context m n a s)
  unfolding retry_loop
  retry_loop-Ends m zero a s some_left total = absurd (omega arith)
  retry_loop-Ends m (suc n) a s some_left total = elim (Bool-cases (ltb 1 a && cancelled a)) [
    | inl leave ↦ inr (0, omega arith, λ j h. absurd (omega arith), leave, rw leave)
    | inr stay ↦ elim (Bool-cases (is_retryable (writer_at a s 0).status_code)) [
      | inr answered ↦
          inl (0, omega arith, λ j h. absurd (omega arith), stay, λ again. cc, rw (stay, answered))
      | inl again ↦ elim (Bool-cases (a == m)) [
        | inl last ↦ inl (
          0,
          omega arith,
          λ j h. absurd (omega arith),
          stay,
          λ h. ground arith,
          rw (stay, again, last),
        )
        | inr more ↦ elim (retry_loop-Ends m n (a + 1) (next a s).0 (ground arith) (omega arith)) [
          | inl (k, below, before_k, quiet, last, out) ↦ inl (
            suc k,
            omega arith,
            GoesOn-suc a k s stay again before_k,
            quiet,
            λ h. ap suc (last h),
            rw (stay, again, more) out,
          )
          | inr (k, below, before_k, cut, out) ↦ inr (
            suc k,
            omega arith,
            GoesOn-suc a k s stay again before_k,
            cut,
            rw (stay, again, more) out,
          )
        ]
      ]
    ]
  ]

  attempts_positive : (max_attempts : ℤ) → 0 < attempts_or_default max_attempts
  unfolding attempts_or_default
  attempts_positive (pos zero) = omega arith
  attempts_positive (pos (suc n)) = omega arith
  attempts_positive (negsuc n) = omega arith

  -- With `n` the configured number of attempts, or 3 when that is not positive: for every handler
  -- behind the middleware the loop ends in one of two ways. Either it answers with an attempt `k` below
  -- `n`: all attempts before were answered with 500 or more, no pause up to it was cut short, the answer
  -- is below 500 unless the attempt is the last of the `n`, the handler ran for the attempts up to `k`
  -- and no more, and only that attempt's buffered answer is written. Or the client left during the pause
  -- before an attempt `k` below `n`: then the attempts before were all answered with 500 or more, the
  -- handler does not run again, and only the error 504 is written.
  pub retry-Ends :
      (max_attempts : ℤ) (s : S)
      → Answers
          (attempts_or_default max_attempts)
          1
          s
          (retry itoa next cancelled context max_attempts s)
        ⊎ Leaves
            (attempts_or_default max_attempts)
            1
            s
            (retry itoa next cancelled context max_attempts s)
  unfolding retry
  retry-Ends max_attempts s =
      retry_loop-Ends (attempts_or_default max_attempts) (attempts_or_default max_attempts) 1 s
        (attempts_positive max_attempts) (omega arith)
