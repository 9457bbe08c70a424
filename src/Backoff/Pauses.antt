-- ===== src/Backoff/Pauses.antt =====
-- The pauses of `BackoffPerformer::perform` (include/cppkafka/utils/backoff_performer.h).
use cppkafka.Prelude.{ℕ, zero, suc, ◌≤◌, true, false, All, All-append, arith, inl, inr}
use cppkafka.Errors.{Result-cases}
use cppkafka.Backoff.{
  BackoffPerformer, increase_backoff, Action, pause, after_pause, finished, perform_loop, perform,
}

-- A performer's pauses never exceed the larger of its initial and its maximal backoff.
abbrev pub AtMost : ℕ → ℕ → Type 0
AtMost bound n = n ≤ bound

increase-bounded :
    (p : BackoffPerformer) (backoff : ℕ) → increase_backoff p backoff ≤ p.maximum_backoff
unfolding increase_backoff
increase-bounded p backoff = ground arith

pause-bounded :
    (bound elapsed backoff : ℕ) → backoff ≤ bound → All (AtMost bound) (pause elapsed backoff)
unfolding pause
pause-bounded bound elapsed backoff h = ground arith

loop-bounded :
    {E : Type 0} (p : BackoffPerformer) (act : Action E) (bound retries backoff : ℕ) (env : E)
    → backoff ≤ bound
    → p.maximum_backoff ≤ bound
    → All (AtMost bound) (perform_loop p act retries backoff env).pauses
unfolding perform_loop after_pause finished
loop-bounded p act bound zero backoff env h k = tt
loop-bounded p act bound (suc retries) backoff env h k =
    let rest =
      loop-bounded p act bound retries (increase_backoff p backoff) (act env).1.1
        (omega (arith, increase-bounded p backoff)) k in
    elim (Result-cases (act env).0) [
      | inl (true, e) ↦ rw (e, All, perform_loop) tt
      | inl (false, e) ↦
          rw (e, perform_loop)
            (All-append (AtMost bound) (pause (act env).1.0 backoff) _
              (pause-bounded bound _ backoff h) rest)
      | inr (x, e) ↦ rw (e, All, perform_loop) tt
    ]

-- Every pause of `perform`, for any action, stays within a bound on the initial and on the maximal
-- backoff.
pub perform-pauses :
    {E : Type 0} (p : BackoffPerformer) (act : Action E) (env : E) (bound : ℕ)
    → p.initial_backoff ≤ bound
    → p.maximum_backoff ≤ bound
    → All (AtMost bound) (perform p act env).pauses
unfolding perform
perform-pauses p act env bound h k =
    loop-bounded p act bound p.maximum_retries p.initial_backoff env h k
