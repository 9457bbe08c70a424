-- ===== src/BufferedProducer/Deadlock.antt =====
-- A synchronous send with retries whose message librdkafka refuses: `sync_produce` of
-- include/cppkafka/utils/buffered_producer.h. The `continue` after a refusal leads to the condition
-- of the loop, which waits for a promise that only a delivery report would set.
use cppkafka.Prelude.{
  ℕ, suc, ◌≡◌, refl, ◌∙◌, Bool, true, false, ◌&&◌, none, some, List, [], ◌∷◌, ◌++◌, arith, length,
  get_elem?, get_elem?-set_self,
}
use cppkafka.Prelude.Int.{ℤ, pos}
use cppkafka.Errors.{RespErr, no_error, queue_full, resp_eq}
use cppkafka.CallbackInvoker.{unset_or_true}
use cppkafka.MessageBuilder.{MessageBuilder, clone}
use cppkafka.BufferedProducer.{
  BufferedProducer, Tracker, sync, decrement_retries, prepare_to_retry, retry_again, update_tracker,
  add_tracker, may_retry, has_retries_left,
}
use cppkafka.BufferedProducer.Monad.{raise, blocked}
use cppkafka.BufferedProducer.Produce.{Kafka, State, produce_message, produce_loop}
use cppkafka.BufferedProducer.Flush.{
  check, sync_failed, sync_turn, sync_check, asks_again, sync_loop, sync_produce,
}

pub get_elem?-append_last :
    {A : Type 0} (ts : List A) (t : A) → get_elem? (ts ++ t ∷ []) (length ts) ≡ some t
get_elem?-append_last [] t = refl
get_elem?-append_last (x ∷ ts) t = get_elem?-append_last ts t

pub get-update :
    {E : Type 0} (p : ℕ) (f : Tracker → Tracker) (s : BufferedProducer E) (t : Tracker)
    → get_elem? s.trackers p ≡ some t
    → get_elem? (update_tracker p f s).trackers p ≡ some (f t)
unfolding update_tracker
get-update p f s t e = rw (e, update_tracker) (get_elem?-set_self s.trackers p (f t) t e)

no_promise :
    (t : Tracker)
    → t.sender ≡ sync
    → t.retry_promise ≡ none
    → retry_again (decrement_retries t) ≡ none
unfolding retry_again decrement_retries
no_promise t sender promise = ground arith

prepared :
    (t : Tracker)
    → t.sender ≡ sync
    → ((prepare_to_retry t).sender ≡ sync)
      × ((prepare_to_retry t).retry_promise ≡ none)
      × (has_retries_left (prepare_to_retry t) ≡ has_retries_left t)
unfolding prepare_to_retry has_retries_left
prepared t sender = ground arith

allowed :
    {E : Type 0} (b : MessageBuilder) (e : RespErr) (p : ℕ) (s : BufferedProducer E) (t : Tracker)
    → get_elem? s.trackers p ≡ some t
    → has_retries_left t ≡ true
    → s.flush_failure_callback ≡ none
    → (unset_or_true s.flush_failure_callback (b, e) && may_retry (some p) s) ≡ true
unfolding unset_or_true may_retry
allowed b e p s t here left unset = ground (arith, here, left, unset)

asks_again-none :
    (kafka : Kafka) (p : ℕ) (s : State kafka) (t : Tracker)
    → get_elem? s.trackers p ≡ some t
    → retry_again t ≡ none
    → asks_again kafka p s ≡ none
unfolding asks_again
asks_again-none kafka p s t here none_set = rw (here, asks_again) none_set

failed-waits :
    (kafka : Kafka) (b : MessageBuilder) (p : ℕ) (e : RespErr) (throw_on_error : Bool)
    (s : State kafka) (t : Tracker)
    → get_elem? s.trackers p ≡ some t
    → t.sender ≡ sync
    → t.retry_promise ≡ none
    → has_retries_left t ≡ true
    → s.flush_failure_callback ≡ none
    → ((sync_failed kafka b p e throw_on_error s).0 ≡ check)
      × (asks_again kafka p (sync_failed kafka b p e throw_on_error s).1 ≡ none)
unfolding sync_failed
failed-waits kafka b p e throw_on_error s t here sender promise left unset =
    rw (allowed b e p s t here left unset) (
      refl,
      asks_again-none kafka p _ _ (get-update p decrement_retries s t here)
          (no_promise t sender promise),
    )

update-callback :
    {E : Type 0} (p : ℕ) (f : Tracker → Tracker) (s : BufferedProducer E)
    → (update_tracker p f s).flush_failure_callback ≡ s.flush_failure_callback
unfolding update_tracker
update-callback p f s = ground arith

module _ (kafka : Kafka) (e : RespErr) (failed : resp_eq e no_error ≡ false)
    (not_full : resp_eq e queue_full ≡ false)
    (refuses : (b : MessageBuilder) (env : kafka.Env) → (kafka.produce b env).0 ≡ e) where
  refused :
      (fuel : ℕ) (c : MessageBuilder) (s : State kafka)
      → produce_message kafka (suc fuel) c s
        ≡ (raise e, record s { env = (kafka.produce c s.env).1 })
  unfolding produce_message produce_loop
  refused fuel c s = rw (refuses c s.env, failed, not_full) refl

  turn-waits :
      (fuel : ℕ) (b c : MessageBuilder) (p : ℕ) (throw_on_error : Bool) (s : State kafka)
      (t : Tracker)
      → get_elem? s.trackers p ≡ some t
      → t.sender ≡ sync
      → has_retries_left t ≡ true
      → s.flush_failure_callback ≡ none
      → ((sync_turn kafka (suc fuel) b c p throw_on_error s).0 ≡ check)
        × (asks_again kafka p (sync_turn kafka (suc fuel) b c p throw_on_error s).1 ≡ none)
  unfolding sync_turn
  turn-waits fuel b c p throw_on_error s t here sender left unset =
      let (sender', promise, same) = prepared t sender in
      rw (refused fuel c (update_tracker p prepare_to_retry s)) (
        failed-waits kafka b p e throw_on_error _ (prepare_to_retry t)
          (get-update p prepare_to_retry s t here) sender' promise (same ∙ left)
          (update-callback p prepare_to_retry s ∙ unset))

  loop-blocks :
      (fuel inner : ℕ) (b c : MessageBuilder) (p : ℕ) (timeout end_time : ℤ) (throw_on_error : Bool)
      (s : State kafka) (t : Tracker)
      → get_elem? s.trackers p ≡ some t
      → t.sender ≡ sync
      → has_retries_left t ≡ true
      → s.flush_failure_callback ≡ none
      → (sync_loop kafka (suc fuel) (suc inner) b c p timeout end_time throw_on_error s).0 ≡ blocked
  unfolding sync_loop sync_check
  loop-blocks fuel inner b c p timeout end_time throw_on_error s t here sender left unset =
      let (turn, waits) = turn-waits inner b c p throw_on_error s t here sender left unset in
      rw (turn, waits, sync_loop) refl

  -- Retries are enabled and at least one is allowed, no flush failure callback is set, the builder
  -- carries no tracker, and librdkafka refuses every message with one error that is not a full queue.
  -- Then `sync_produce` neither returns nor throws: its first refusal leads it to wait for ever.
  pub sync_produce-blocks :
      (fuel n : ℕ) (b : MessageBuilder) (timeout : ℤ) (throw_on_error : Bool) (s : State kafka)
      → s.enable_message_retries ≡ true
      → s.max_number_retries ≡ pos (suc n)
      → s.flush_failure_callback ≡ none
      → b.internal ≡ none
      → (sync_produce kafka (suc fuel) b timeout throw_on_error s).0 ≡ blocked
  unfolding sync_produce add_tracker clone has_retries_left
  sync_produce-blocks fuel n b timeout throw_on_error s enabled most unset fresh =
      rw (enabled, fresh)
        (loop-blocks fuel fuel _ _ (length s.trackers) timeout _ throw_on_error _ _
          (get_elem?-append_last s.trackers _) refl (rw most (ground arith)) unset)
