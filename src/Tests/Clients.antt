-- ===== src/Tests/Clients.antt =====
-- What a client builds, retries and checks.
use angzarr_client_go.Prelude.{ℕ, zero, suc, ◌<◌, Option, none, some, [], ◌≡◌, refl, arith}
use angzarr_client_go.Proto.{Bytes}
use angzarr_client_go.Errors.{Error, ok, plain}
use angzarr_client_go.Helpers.Uuid.{UuidLib}
use angzarr_client_go.Retry.{execute}
use angzarr_client_go.Retry.Attempts.{delays, execute-success, execute-exhausted}

-- The first two calls fail, the third and all later ones do not.
abbrev flaky : ℕ → Option Error
flaky zero = some (plain "0")
flaky (suc zero) = some (plain "1")
flaky (suc (suc n)) = none

two_fail : (k : ℕ) → k < 2 → (e : Error) × (flaky k ≡ some e)
two_fail zero h = (plain "0", refl)
two_fail (suc zero) h = (plain "1", refl)
two_fail (suc (suc k)) h = absurd (omega (arith, h))

execute-success_example :
    execute (λ k. k) flaky 10 ≡ record { calls = 3; sleeps = delays (λ k. k) 2 0; result = none }
execute-success_example = execute-success (λ k. k) flaky 2 10 (omega arith) two_fail refl

execute-exhausted_example :
    execute (λ k. k) flaky 2
    ≡ record { calls = 2; sleeps = delays (λ k. k) 1 0; result = some (plain "1") }
execute-exhausted_example = execute-exhausted (λ k. k) flaky 1 two_fail

abbrev pub lib : UuidLib
lib = record {
  Uuid = Bytes;
  zero_uuid = [];
  bytes = λ u. u;
  from_bytes = λ b. ok b;
  text = λ u. "fresh";
}
