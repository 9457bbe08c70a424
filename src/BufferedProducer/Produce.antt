-- ===== src/BufferedProducer/Produce.antt =====
-- Sending and waiting: `produce_message`, `wait_for_acks_impl`, `async_produce`, `sync_produce` and
-- `produce` of include/cppkafka/utils/buffered_producer.h. Each loop takes fuel.
use cppkafka.Prelude.{
  ℕ, zero, suc, ◌+◌, Bool, true, false, not, ◌&&◌, ◌||◌, Option, none, some, List, [], ◌∷◌, ◌++◌,
  if◌then◌else◌,
}
use cppkafka.Prelude.Int.{ℤ, pos, negsuc, ◌-ℤ◌, ltb_ℤ, eqb_ℤ}
use cppkafka.Errors.{RespErr, no_error, queue_full, timed_out, resp_eq, is_error}
use cppkafka.CallbackInvoker.{unset_or_true}
use cppkafka.Message.{Message}
use cppkafka.MessageBuilder.{MessageBuilder, clone, of_message}
use cppkafka.AckMonitor.{increment_pending_acks, has_pending_acks, has_current_thread_pending_acks}
use cppkafka.BufferedProducer
use cppkafka.BufferedProducer.{
  BufferedProducer, SenderType, sync, async, retry, Threads, all_threads, current_thread,
  QueueFullNotification, no_notification, once_per_message, each_occurence, flush_termination,
  prepare_to_retry, retry_again, has_retries_left, decrement_retries, update_tracker, add_tracker,
  enqueue, may_retry,
}
use cppkafka.BufferedProducer.Monad.{Outcome, done, raise, no_fuel, Exec}
use cppkafka.BufferedProducer.Report.{serve}

-- librdkafka as `Producer` calls it: the code that a call returns, the delivery reports that are
-- served during it, and a clock in milliseconds.
pub record Kafka : Type 1 where
  pub Env : Type 0
  pub produce : MessageBuilder → Env → RespErr × Env
  pub poll : Env → List Message × Env
  pub flush : ℤ → Env → List Message × (RespErr × Env)
  pub clock : Env → ℤ

abbrev pub infinite_timeout : ℤ
infinite_timeout = negsuc 0

abbrev pub no_timeout : ℤ
no_timeout = pos 0

notifies : QueueFullNotification → Bool
notifies no_notification = false
notifies _ = true

notifies_each : QueueFullNotification → Bool
notifies_each each_occurence = true
notifies_each _ = false

module _ (kafka : Kafka) where
  abbrev pub State : Type 0
  State = BufferedProducer kafka.Env

  abbrev pub Run : Type 0 → Type 0
  Run A = Exec kafka.Env A

  -- `producer_.poll()`.
  unfoldable pub poll_producer : State → State
  poll_producer s = let (reports, env) = kafka.poll s.env in serve reports (record s { env = env })

  unfoldable pub notify_queue_full : Bool → MessageBuilder → State → State
  notify_queue_full notify b s =
      if notify then record s { events = s.events ++ BufferedProducer.queue_full b ∷ [] } else s

  unfoldable pub accept : MessageBuilder → State → State
  accept b s = record s {
    ack_monitor = increment_pending_acks s.thread s.ack_monitor;
    produced = s.produced ++ b ∷ [];
  }

  -- The loop of `produce_message`: a full queue is polled, another error is thrown.
  unfoldable pub produce_loop : ℕ → Bool → MessageBuilder → Run (Unit {0})
  unfolding notifies_each poll_producer notify_queue_full accept
  produce_loop zero notify b s = (no_fuel, s)
  produce_loop (suc fuel) notify b s =
      let (e, env) = kafka.produce b s.env in
      let s₁ = record s { env = env } in
      let again =
        produce_loop fuel (notify && notifies_each s.queue_full_notification) b
          (notify_queue_full notify b (poll_producer s₁)) in
      if resp_eq e no_error
      then (done tt, accept b s₁)
      else if resp_eq e queue_full
      then again
      else (raise e, s₁)

  -- `produce_message`.
  unfoldable pub produce_message : ℕ → MessageBuilder → Run (Unit {0})
  unfolding notifies
  produce_message fuel b s = produce_loop fuel (notifies s.queue_full_notification) b s

  unfoldable pub has_pending : Threads → State → Bool
  has_pending all_threads s = has_pending_acks s.ack_monitor
  has_pending current_thread s = has_current_thread_pending_acks s.thread s.ack_monitor

  -- The loop of `wait_for_acks_impl`.
  unfoldable pub wait_loop : ℕ → Threads → ℤ → ℤ → ℤ → Run Bool
  unfolding has_pending
  wait_loop zero threads timeout start remaining s = (no_fuel, s)
  wait_loop (suc fuel) threads timeout start remaining s =
      let (reports, (e, env)) = kafka.flush remaining s.env in
      let s₁ = serve reports (record s { env = env }) in
      let left = timeout -ℤ (kafka.clock s₁.env -ℤ start) in
      let pending = has_pending threads s₁ in
      let again = wait_loop fuel threads timeout start left s₁ in
      if resp_eq e timed_out
      then (done (not pending), s₁)
      else if is_error e
      then (raise e, s₁)
      else if pending && (ltb_ℤ (pos 0) left || eqb_ℤ timeout infinite_timeout)
      then again
      else (done (not pending), s₁)

  -- `wait_for_acks_impl`.
  unfoldable pub wait_for_acks_impl : ℕ → Threads → ℤ → Run Bool
  wait_for_acks_impl fuel threads timeout s =
      wait_loop fuel threads timeout (kafka.clock s.env) timeout s

  -- `wait_for_acks` and `wait_for_current_thread_acks`.
  unfoldable pub wait_for_acks : ℕ → ℤ → Run Bool
  wait_for_acks fuel timeout = wait_for_acks_impl fuel all_threads timeout

  unfoldable pub wait_for_current_thread_acks : ℕ → ℤ → Run Bool
  wait_for_current_thread_acks fuel timeout = wait_for_acks_impl fuel current_thread timeout

  -- The last resort of a failed send: the message is dropped, the application told.
  unfoldable pub drop_builder : MessageBuilder → RespErr → State → State
  drop_builder b e s = record s {
    total_messages_dropped = s.total_messages_dropped + 1;
    events = s.events ++ flush_termination b e ∷ [];
  }

  unfoldable pub decrement_at : Option ℕ → State → State
  decrement_at none s = s
  decrement_at (some p) s = update_tracker p decrement_retries s

  -- The `catch` of `async_produce`.
  unfoldable pub async_failed : MessageBuilder → RespErr → Bool → Run (Unit {0})
  unfolding drop_builder decrement_at
  async_failed b e throw_on_error s =
      if unset_or_true s.flush_failure_callback (b, e) && may_retry b.internal s
      then (done tt, enqueue retry b (decrement_at b.internal s))
      else ((if throw_on_error then raise e else done tt), drop_builder b e s)

  unfoldable pub async_settle : MessageBuilder → Bool → Outcome (Unit {0}) → Run (Unit {0})
  unfolding async_failed
  async_settle b throw_on_error (raise e) s = async_failed b e throw_on_error s
  async_settle b throw_on_error r s = (r, s)

  -- `async_produce`.
  unfoldable pub async_produce : ℕ → MessageBuilder → Bool → Run (Unit {0})
  unfolding async_settle
  async_produce fuel b throw_on_error s =
      let (r, s₁) = produce_message fuel b s in async_settle b throw_on_error r s₁

  -- `produce(builder)`.
  unfoldable pub produce : ℕ → MessageBuilder → Run (Unit {0})
  produce fuel b s =
      if s.enable_message_retries
      then (let (b₁, s₁) = add_tracker async (clone b) s in async_produce fuel b₁ true s₁)
      else async_produce fuel b true s

  -- `produce(message)`.
  unfoldable pub produce_received : ℕ → Message → Run (Unit {0})
  produce_received fuel m s = async_produce fuel (of_message m) true s
