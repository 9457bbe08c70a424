-- ===== src/Backoff.antt =====
-- Retrying an action with a growing pause, and committing offsets that way:
-- src/utils/backoff_performer.cpp, include/cppkafka/utils/backoff_performer.h,
-- src/utils/backoff_committer.cpp and include/cppkafka/utils/backoff_committer.h. Durations are
-- milliseconds, and the environment of the action is the state `E`.
pub mod Pauses
pub mod Attempts
mod Tests
use cppkafka.Prelude.{
  ℕ, zero, suc, ◌+◌, ◌*◌, ◌-◌, ◌^◌, Bool, true, false, not, ◌&&◌, Option, none, some, List, [], ◌∷◌,
  ◌++◌, ltb, leb, ◌==◌, if◌then◌else◌, is_some,
}
use cppkafka.Prelude.Bytes.{Bytes, codes}
use cppkafka.Errors.{
  RespErr, no_offset, resp_eq, is_error, Result, ok, throw, Exception, handle_exception,
  action_terminated,
}
use cppkafka.CallbackInvoker.{Callback, unset_or_true}

pub data BackoffPolicy : Type 0 where
  linear exponential : BackoffPolicy

pub record BackoffPerformer : Type 0 where
  pub initial_backoff : ℕ
  pub backoff_step : ℕ
  pub maximum_backoff : ℕ
  pub policy : BackoffPolicy
  pub maximum_retries : ℕ

-- BackoffPerformer(); the retries are the greatest `size_t`.
unfoldable pub new_performer : BackoffPerformer
new_performer = record {
  initial_backoff = 100;
  backoff_step = 50;
  maximum_backoff = 1000;
  policy = linear;
  maximum_retries = 2 ^ 64 - 1;
}

pub set_backoff_policy : BackoffPolicy → BackoffPerformer → BackoffPerformer
set_backoff_policy policy p = record p { policy = policy }

pub set_initial_backoff : ℕ → BackoffPerformer → BackoffPerformer
set_initial_backoff value p = record p { initial_backoff = value }

pub set_backoff_step : ℕ → BackoffPerformer → BackoffPerformer
set_backoff_step value p = record p { backoff_step = value }

pub set_maximum_backoff : ℕ → BackoffPerformer → BackoffPerformer
set_maximum_backoff value p = record p { maximum_backoff = value }

-- `set_maximum_retries`: 0 is 1.
unfoldable pub set_maximum_retries : ℕ → BackoffPerformer → BackoffPerformer
set_maximum_retries value p = record p { maximum_retries = if value == 0 then 1 else value }

-- `min(a, b)`.
abbrev min : ℕ → ℕ → ℕ
min a b = if ltb b a then b else a

-- `increase_backoff`.
unfoldable pub increase_backoff : BackoffPerformer → ℕ → ℕ
increase_backoff p backoff =
    min (elim p.policy [ linear ↦ backoff + p.backoff_step | exponential ↦ backoff * 2 ])
      p.maximum_backoff

-- One call of the action: what it returns or throws, the time it took, and the next state.
abbrev pub Action : Type 0 → Type 0
Action E = E → Result Bool × (ℕ × E)

-- What `perform` did: its result, the pauses slept, the calls made, and the state at the end.
pub record Performance (E : Type 0) : Type 0 where
  pub result : Result (Unit {0})
  pub pauses : List ℕ
  pub calls : ℕ
  pub env : E

-- The pause after a call that took `elapsed`.
unfoldable pub pause : ℕ → ℕ → List ℕ
pause elapsed backoff = if ltb elapsed backoff then (backoff - elapsed) ∷ [] else []

-- `do_commit`: `commit` is the consumer's, with the error that it throws or `no_error`.
unfoldable pub do_commit : Callback RespErr Bool → RespErr → Result Bool
do_commit callback e =
    if not (is_error e)
    then ok true
    else if resp_eq e no_offset
    then ok true
    else if not (unset_or_true callback e)
    then throw (handle_exception e)
    else ok false

module _ {E : Type 0} where
  unfoldable pub after_pause : List ℕ → Performance E → Performance E
  after_pause slept r = record r { pauses = slept ++ r.pauses; calls = suc r.calls }

  unfoldable pub finished : Result (Unit {0}) → E → Performance E
  finished result env = record { result = result; pauses = []; calls = 1; env = env }

  -- The loop of `perform`, over the retries.
  unfoldable pub perform_loop : BackoffPerformer → Action E → ℕ → ℕ → E → Performance E
  perform_loop p act zero backoff env = record {
    result = throw (action_terminated (codes "Commit failed: no more retries."));
    pauses = [];
    calls = 0;
    env = env;
  }
  perform_loop p act (suc retries) backoff env =
      let (answer, (elapsed, env₁)) = act env in
      let again = perform_loop p act retries (increase_backoff p backoff) env₁ in
      elim answer [
        | ok success ↦
            if success then finished (ok tt) env₁ else after_pause (pause elapsed backoff) again
        | throw e ↦ finished (throw e) env₁
      ]

  -- `perform`.
  unfoldable pub perform : BackoffPerformer → Action E → E → Performance E
  perform p act env = perform_loop p act p.maximum_retries p.initial_backoff env

  -- `BackoffCommitter::commit`, in its three overloads.
  unfoldable pub commit :
      BackoffPerformer → Callback RespErr Bool → (E → RespErr × (ℕ × E)) → E → Performance E
  unfolding do_commit
  commit p callback consumer_commit =
      perform p (λ env. let (e, rest) = consumer_commit env in (do_commit callback e, rest))
