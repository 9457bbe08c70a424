-- ===== src/Backoff/Tests.antt =====
-- The theorems on the backoff performer at concrete actions.
use cppkafka.Prelude.{ℕ, zero, suc, ◌≡◌, refl, true, false, ◌==◌, All, arith}
use cppkafka.Errors.{ok}
use cppkafka.Backoff.{BackoffPerformer, exponential, Action, perform}
use cppkafka.Backoff.Pauses.{AtMost, perform-pauses}
use cppkafka.Backoff.Attempts.{after, FailsBefore, perform-succeeds}

abbrev performer : BackoffPerformer
performer = record {
  initial_backoff = 100;
  backoff_step = 50;
  maximum_backoff = 250;
  policy = exponential;
  maximum_retries = 3;
}

-- Each call takes 10 milliseconds; the call numbered 2 succeeds.
abbrev third_time : Action ℕ
third_time n = (ok (n == 2), (10, suc n))

-- No call succeeds.
abbrev never : Action ℕ
never n = (ok false, (10, suc n))

perform-pauses_example : All (AtMost 250) (perform performer third_time 0).pauses
perform-pauses_example = perform-pauses performer third_time 0 250 (omega arith) (omega arith)

fails_twice : FailsBefore third_time 2 0
unfolding after
fails_twice zero h = refl
fails_twice (suc zero) h = refl
fails_twice (suc (suc n)) h = absurd (omega arith)

third_succeeds : (third_time (after third_time 2 0)).0 ≡ ok true
unfolding after
third_succeeds = refl

perform-succeeds_example :
    let r = perform performer third_time 0 in
    (r.result ≡ ok tt) × (r.calls ≡ 3) × (r.env ≡ after third_time 3 0)
perform-succeeds_example =
    perform-succeeds performer third_time 2 0 (omega arith) fails_twice third_succeeds
