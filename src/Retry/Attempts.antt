-- ===== src/Retry/Attempts.antt =====
-- `ExponentialBackoffRetry.Execute` of retry.go: calls, sleeps and result.
use angzarr_client_go.Prelude.{
  ℕ, zero, suc, ◌+◌, ◌<◌, Option, none, some, List, [], ◌∷◌, ◌≡◌, ap, ◌∙◌, sym, arith,
}
use angzarr_client_go.Errors.{Error}
use angzarr_client_go.Retry.{Run, called, slept, after_call, last_error, execute_from, execute}

-- The delays after the attempts from `attempt` on, `n` of them.
pub delays : (ℕ → ℕ) → (n attempt : ℕ) → List ℕ
delays compute_delay zero attempt = []
delays compute_delay (suc n) attempt = compute_delay attempt ∷ delays compute_delay n (attempt + 1)

module _ (compute_delay : ℕ → ℕ) (operation : ℕ → Option Error) where
  after-failure :
      (attempt m : ℕ) (o : Option Error) (e : Error) (rest rest' : Run)
      → o ≡ some e
      → rest ≡ rest'
      → after_call compute_delay operation attempt (suc m) rest o
        ≡ called (slept (compute_delay attempt) rest')
  after-failure attempt m o e rest rest' fails same =
      ap (after_call compute_delay operation attempt (suc m) rest) fails
      ∙ ap (λ run. called (slept (compute_delay attempt) run)) same

  from-success :
      (n m attempt : ℕ) (last : Option Error)
      → n < m
      → ((k : ℕ) → k < n → (e : Error) × (operation (attempt + k) ≡ some e))
      → operation (attempt + n) ≡ none
      → execute_from compute_delay operation m attempt last
        ≡ record { calls = suc n; sleeps = delays compute_delay n attempt; result = none }
  unfolding execute_from delays
  from-success zero zero attempt last less fails works = absurd (omega (arith, less))
  from-success zero (suc m) attempt last less fails works =
      let now : operation attempt ≡ none = ap operation (omega arith) ∙ works in
      ap
        (after_call compute_delay operation attempt m (
          execute_from compute_delay operation m (attempt + 1)
            (last_error compute_delay operation last (operation attempt))))
        now
  from-success (suc n) zero attempt last less fails works = absurd (omega (arith, less))
  from-success (suc n) (suc zero) attempt last less fails works = absurd (omega (arith, less))
  from-success (suc n) (suc (suc m)) attempt last less fails works =
      let (e, now) = fails 0 (omega arith) in
      after-failure attempt m (operation attempt) e _ _ (ap operation (omega arith) ∙ now) (
        from-success n (suc m) (attempt + 1)
          (last_error compute_delay operation last (operation attempt)) (omega (arith, less))
          (λ k h.
            let (e', later) = fails (suc k) (omega (arith, h)) in
            (e', ap operation (omega arith) ∙ later))
          (ap operation (omega arith) ∙ works))

  from-failure :
      (m attempt : ℕ) (last : Option Error)
      → ((k : ℕ) → k < suc m → (e : Error) × (operation (attempt + k) ≡ some e))
      → execute_from compute_delay operation (suc m) attempt last ≡ record {
        calls = suc m;
        sleeps = delays compute_delay m attempt;
        result = operation (attempt + m);
      }
  unfolding execute_from delays
  from-failure zero attempt last fails =
      let (e, now) = fails 0 (omega arith) in
      let here : operation attempt ≡ some e = ap operation (omega arith) ∙ now in
      ap
        (λ o.
          after_call compute_delay operation attempt 0
            (record { calls = 0; sleeps = []; result = last_error compute_delay operation last o })
            o)
        here
      ∙ ap (λ o. record { calls = 1; sleeps = []; result = o }) (sym now)
  from-failure (suc m) attempt last fails =
      let (e, now) = fails 0 (omega arith) in
      after-failure attempt m (operation attempt) e _ _ (ap operation (omega arith) ∙ now) (
        from-failure m (attempt + 1) (last_error compute_delay operation last (operation attempt))
          (λ k h.
            let (e', later) = fails (suc k) (omega (arith, h)) in
            (e', ap operation (omega arith) ∙ later))
        ∙ ap
            (λ k. record {
              calls = suc m;
              sleeps = delays compute_delay m (attempt + 1);
              result = operation k;
            })
            (omega arith))

  -- When the first `n` calls fail, the next does not, and there are attempts enough for it, the
  -- operation is called that often, each failed call is followed by its delay, and the result is nil.
  pub execute-success :
      (n max_attempts : ℕ)
      → n < max_attempts
      → ((k : ℕ) → k < n → (e : Error) × (operation k ≡ some e))
      → operation n ≡ none
      → execute compute_delay operation max_attempts
        ≡ record { calls = suc n; sleeps = delays compute_delay n 0; result = none }
  unfolding execute
  execute-success n max_attempts less fails works =
      from-success n max_attempts 0 none less
        (λ k h. let (e, later) = fails k h in (e, ap operation (omega arith) ∙ later))
        (ap operation (omega arith) ∙ works)

  -- When every call fails, there are as many calls as attempts, a delay after each but the last, and
  -- the result is the last call's error.
  pub execute-exhausted :
      (m : ℕ)
      → ((k : ℕ) → k < suc m → (e : Error) × (operation k ≡ some e))
      → execute compute_delay operation (suc m)
        ≡ record { calls = suc m; sleeps = delays compute_delay m 0; result = operation m }
  unfolding execute
  execute-exhausted m fails =
      from-failure m 0 none
        (λ k h. let (e, later) = fails k h in (e, ap operation (omega arith) ∙ later))
      ∙ ap (λ k. record { calls = suc m; sleeps = delays compute_delay m 0; result = operation k })
          (omega arith)
