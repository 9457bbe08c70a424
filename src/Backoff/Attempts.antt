-- ===== src/Backoff/Attempts.antt =====
-- How often `BackoffPerformer::perform` calls its action, and what a run of it keeps
-- (include/cppkafka/utils/backoff_performer.h).
use cppkafka.Prelude.{ℕ, zero, suc, ◌<◌, ◌≡◌, ◌∙◌, refl, ap, true, false, arith, inl, inr}
use cppkafka.Prelude.Bytes.{codes}
use cppkafka.Errors.{Result-cases, ok, throw, action_terminated}
use cppkafka.Backoff.{
  BackoffPerformer, increase_backoff, Action, after_pause, finished, perform_loop, perform,
}

-- The environment after `n` calls of the action, whatever they return.
unfoldable pub after : {E : Type 0} → Action E → ℕ → E → E
after act zero env = env
after act (suc n) env = after act n (act env).1.1

abbrev pub FailsBefore : {E : Type 0} → Action E → ℕ → E → Type 0
FailsBefore act k env = (n : ℕ) → n < k → (act (after act n env)).0 ≡ ok false

module _ {E : Type 0} (p : BackoffPerformer) (act : Action E) where
  loop-succeeds :
      (retries k backoff : ℕ) (env : E)
      → k < retries
      → FailsBefore act k env
      → (act (after act k env)).0 ≡ ok true
      → let r = perform_loop p act retries backoff env in
        (r.result ≡ ok tt) × (r.calls ≡ suc k) × (r.env ≡ after act (suc k) env)
  unfolding perform_loop after_pause finished after
  loop-succeeds zero k backoff env h before e = absurd (omega arith)
  loop-succeeds (suc retries) zero backoff env h before e = rw (e, perform_loop) (refl, refl, refl)
  loop-succeeds (suc retries) (suc k) backoff env h before e =
      let (r, c, s) =
        loop-succeeds retries k (increase_backoff p backoff) (act env).1.1 (omega arith)
          (λ n l. before (suc n) (omega arith)) e in
      rw (before 0 (omega arith), perform_loop) (r, ap suc c, s)

  loop-exhausts :
      (retries backoff : ℕ) (env : E)
      → FailsBefore act retries env
      → let r = perform_loop p act retries backoff env in
        (r.result ≡ throw (action_terminated (codes "Commit failed: no more retries.")))
        × (r.calls ≡ retries)
  unfolding perform_loop after_pause finished after
  loop-exhausts zero backoff env before = (refl, refl)
  loop-exhausts (suc retries) backoff env before =
      let (r, c) =
        loop-exhausts retries (increase_backoff p backoff) (act env).1.1
          (λ n l. before (suc n) (omega arith)) in
      rw (before 0 (omega arith), perform_loop) (r, ap suc c)

  -- Where the action fails `k` times and then succeeds, and `k` is below the maximal number of
  -- retries, `perform` returns after exactly `k + 1` calls.
  pub perform-succeeds :
      (k : ℕ) (env : E)
      → k < p.maximum_retries
      → FailsBefore act k env
      → (act (after act k env)).0 ≡ ok true
      → let r = perform p act env in
        (r.result ≡ ok tt) × (r.calls ≡ suc k) × (r.env ≡ after act (suc k) env)
  unfolding perform
  perform-succeeds k env = loop-succeeds p.maximum_retries k p.initial_backoff env

  -- Where the action fails as often as the maximal number of retries says, `perform` throws after
  -- exactly that many calls.
  pub perform-exhausts :
      (env : E)
      → FailsBefore act p.maximum_retries env
      → let r = perform p act env in
        (r.result ≡ throw (action_terminated (codes "Commit failed: no more retries.")))
        × (r.calls ≡ p.maximum_retries)
  unfolding perform
  perform-exhausts env = loop-exhausts p.maximum_retries p.initial_backoff env

module _ {E X : Type 0} (p : BackoffPerformer) (act : Action E) (f : E → X)
    (keeps : (env : E) → f (act env).1.1 ≡ f env) where
  loop-keeps :
      (retries backoff : ℕ) (env : E) → f (perform_loop p act retries backoff env).env ≡ f env
  unfolding perform_loop after_pause finished
  loop-keeps zero backoff env = refl
  loop-keeps (suc retries) backoff env =
      let rest = loop-keeps retries (increase_backoff p backoff) (act env).1.1 in
      elim (Result-cases (act env).0) [
        | inl (true, e) ↦ rw (e, perform_loop) (keeps env)
        | inl (false, e) ↦ rw (e, perform_loop) (rest ∙ keeps env)
        | inr (x, e) ↦ rw (e, perform_loop) (keeps env)
      ]

  pub perform-keeps : (env : E) → f (perform p act env).env ≡ f env
  unfolding perform
  perform-keeps env = loop-keeps p.maximum_retries p.initial_backoff env
