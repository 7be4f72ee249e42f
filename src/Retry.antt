-- ===== src/Retry.antt =====
-- retry.go: `ExponentialBackoffRetry.Execute`. A call of the operation is known by its number, from
-- zero: it gives nil or an error. `computeDelay` works on floating-point numbers and on a random one,
-- which are not modelled: the delay before the next attempt is a parameter. `MaxAttempts` is a
-- number here; a negative one runs no round of the loop, as zero does.
pub mod Attempts
use angzarr_client_go.Prelude.{
  ℕ, zero, suc, ◌+◌, ◌*◌, Bool, true, Option, none, some, List, [], ◌∷◌,
}
use angzarr_client_go.Errors.{Error}

-- A run: how often the operation was called, the delays that were slept, and the result.
pub record Run : Type 0 where
  pub calls : ℕ
  pub sleeps : List ℕ
  pub result : Option Error

abbrev pub called : Run → Run
called run = record run { calls = suc run.calls }

abbrev pub slept : ℕ → Run → Run
slept delay run = record run { sleeps = delay ∷ run.sleeps }

module _ (compute_delay : ℕ → ℕ) (operation : ℕ → Option Error) where
  -- What follows a failed call, when `remaining` attempts are left.
  abbrev after_failure : (attempt remaining : ℕ) → Run → Run
  after_failure attempt zero rest = rest
  after_failure attempt (suc remaining) rest = slept (compute_delay attempt) rest

  abbrev pub after_call : (attempt remaining : ℕ) → Run → Option Error → Run
  after_call attempt remaining rest none = record { calls = 1; sleeps = []; result = none }
  after_call attempt remaining rest (some e) = called (after_failure attempt remaining rest)

  abbrev last_error : Option Error → Option Error → Option Error
  last_error prior none = prior
  last_error prior (some e) = some e

  -- The loop, with the attempts that are left: `attempt` of them have failed, the last with `last`.
  pub execute_from : (remaining attempt : ℕ) → (last : Option Error) → Run
  execute_from zero attempt last = record { calls = 0; sleeps = []; result = last }
  execute_from (suc remaining) attempt last =
      let rest = execute_from remaining (attempt + 1) (last_error last (operation attempt)) in
      after_call attempt remaining rest (operation attempt)

  -- `Execute`.
  unfoldable pub execute : (max_attempts : ℕ) → Run
  unfolding execute_from
  execute max_attempts = execute_from max_attempts 0 none

-- `RetryPolicy`: what `Execute` does with an operation.
abbrev pub RetryPolicy : Type 0
RetryPolicy = (ℕ → Option Error) → Run

-- `ExponentialBackoffRetry`; a `time.Duration` is its nanoseconds.
pub record ExponentialBackoffRetry : Type 0 where
  pub min_delay : ℕ
  pub max_delay : ℕ
  pub max_attempts : ℕ
  pub jitter : Bool

-- `DefaultRetryPolicy`.
abbrev pub default_retry_policy : ExponentialBackoffRetry
default_retry_policy = record {
  min_delay = 100 * 1_000_000;
  max_delay = 5 * 1_000_000_000;
  max_attempts = 10;
  jitter = true;
}

-- The policy that an `ExponentialBackoffRetry` is.
abbrev pub policy_of : (ExponentialBackoffRetry → ℕ → ℕ) → ExponentialBackoffRetry → RetryPolicy
policy_of compute_delay r operation = execute (compute_delay r) operation r.max_attempts
