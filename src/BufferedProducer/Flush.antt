-- ===== src/BufferedProducer/Flush.antt =====
-- `sync_produce`, `flush` and `add_message` of include/cppkafka/utils/buffered_producer.h.
use cppkafka.Prelude.{
  ℕ, zero, suc, ◌+◌, ◌-◌, Bool, true, false, not, ◌&&◌, ◌||◌, Option, none, some, List, [], ◌∷◌,
  if◌then◌else◌, get_elem?,
}
use cppkafka.Prelude.Int.{ℤ, ◌+ℤ◌, ltb_ℤ, eqb_ℤ}
use cppkafka.Errors.{RespErr}
use cppkafka.CallbackInvoker.{unset_or_true}
use cppkafka.MessageBuilder.{MessageBuilder, clone}
use cppkafka.AckMonitor.{has_current_thread_pending_acks}
use cppkafka.BufferedProducer
use cppkafka.BufferedProducer.{
  Tracker, sync, async, FlushMethod, sync_flush, async_flush, do_flush, prepare_to_retry,
  retry_again, has_retries_left, decrement_retries, update_tracker, add_tracker, enqueue,
  must_flush, may_retry,
}
use cppkafka.BufferedProducer.Monad.{Outcome, done, raise, blocked, no_fuel, ◌>>◌, pure}
use cppkafka.BufferedProducer.Produce.{
  Kafka, State, Run, infinite_timeout, no_timeout, produce_message, wait_for_current_thread_acks,
  drop_builder, async_produce,
}

module _ (kafka : Kafka) where
  -- The `catch` around a synchronous send without retries.
  unfoldable pub once_failed : MessageBuilder → RespErr → Bool → Run kafka Bool
  once_failed b e throw_on_error s =
      ((if throw_on_error then raise e else done false), drop_builder kafka b e s)

  unfoldable pub once_settle : MessageBuilder → Bool → Outcome Bool → Run kafka Bool
  unfolding once_failed
  once_settle b throw_on_error (done _) s =
      (done (not (has_current_thread_pending_acks s.thread s.ack_monitor)), s)
  once_settle b throw_on_error (raise e) s = once_failed b e throw_on_error s
  once_settle b throw_on_error r s = (r, s)

  -- `sync_produce` without retries.
  unfoldable pub produce_once : ℕ → MessageBuilder → ℤ → Bool → Run kafka Bool
  unfolding once_settle
  produce_once fuel b timeout throw_on_error s =
      let (r, s₁) =
        (produce_message kafka fuel b >> wait_for_current_thread_acks kafka fuel timeout) s in
      once_settle b throw_on_error r s₁

  tracker_at : ℕ → State kafka → Option Tracker
  tracker_at p s = get_elem? s.trackers p

  -- `!tracker->has_retries_left()`.
  unfoldable pub no_retries_left : ℕ → State kafka → Bool
  unfolding tracker_at has_retries_left
  no_retries_left p s = elim (tracker_at p s) [ none ↦ true | some t ↦ not (has_retries_left t) ]

  -- `tracker->retry_again()`.
  unfoldable pub asks_again : ℕ → State kafka → Option Bool
  unfolding tracker_at retry_again
  asks_again p s = elim (tracker_at p s) [ none ↦ none | some t ↦ retry_again t ]

  -- What the body of the loop of `sync_produce` leads to: its condition, or the end of the loop.
  pub data Turn : Type 0 where
    check : Turn
    leave : Outcome Bool → Turn

  -- The `catch` in the loop of `sync_produce`; `b` is the caller's builder.
  unfoldable pub sync_failed :
      MessageBuilder → ℕ → RespErr → Bool → State kafka → Turn × State kafka
  unfolding no_retries_left
  sync_failed b p e throw_on_error s =
      if unset_or_true s.flush_failure_callback (b, e) && may_retry (some p) s
      then (check, update_tracker p decrement_retries s)
      else (
        leave (if throw_on_error then raise e else done (no_retries_left p s)),
        drop_builder kafka b e s,
      )

  unfoldable pub sync_settle :
      MessageBuilder → ℕ → Bool → Outcome Bool → State kafka → Turn × State kafka
  unfolding sync_failed
  sync_settle b p throw_on_error (done _) s = (check, s)
  sync_settle b p throw_on_error (raise e) s = sync_failed b p e throw_on_error s
  sync_settle b p throw_on_error r s = (leave r, s)

  -- The body of the loop of `sync_produce`; `c` is the clone that carries the tracker `p`.
  unfoldable pub sync_turn :
      ℕ → MessageBuilder → MessageBuilder → ℕ → Bool → State kafka → Turn × State kafka
  unfolding sync_settle
  sync_turn fuel b c p throw_on_error s =
      let (r, s₁) =
        (produce_message kafka fuel c >> wait_for_current_thread_acks kafka fuel infinite_timeout)
          (update_tracker p prepare_to_retry s) in
      sync_settle b p throw_on_error r s₁

  -- The condition of the loop, and what follows it.
  unfoldable pub sync_check :
      Option Bool
      → ℤ
      → ℤ
      → ℕ
      → State kafka
      → Outcome Bool × State kafka
      → Outcome Bool × State kafka
  sync_check none timeout end_time p s again = (blocked, s)
  sync_check (some false) timeout end_time p s again = (done (no_retries_left p s), s)
  sync_check (some true) timeout end_time p s again =
      if eqb_ℤ timeout infinite_timeout || not (ltb_ℤ (kafka.clock s.env) end_time)
      then again
      else (done (no_retries_left p s), s)

  -- The loop of `sync_produce` with retries.
  unfoldable pub sync_loop :
      ℕ → ℕ → MessageBuilder → MessageBuilder → ℕ → ℤ → ℤ → Bool → Run kafka Bool
  sync_loop zero inner b c p timeout end_time throw_on_error s = (no_fuel, s)
  sync_loop (suc fuel) inner b c p timeout end_time throw_on_error s =
      let (turn, s₁) = sync_turn inner b c p throw_on_error s in
      elim turn [
        | leave r ↦ (r, s₁)
        | check ↦
            let again = sync_loop fuel inner b c p timeout end_time throw_on_error s₁ in
            sync_check (asks_again p s₁) timeout end_time p s₁ again
      ]

  unfoldable pub tracker_id : MessageBuilder → ℕ
  tracker_id b = elim b.internal [ none ↦ 0 | some p ↦ p ]

  -- `sync_produce(builder, timeout, throw_on_error)`.
  unfoldable pub sync_produce : ℕ → MessageBuilder → ℤ → Bool → Run kafka Bool
  unfolding tracker_id
  sync_produce fuel b timeout throw_on_error s =
      if s.enable_message_retries
      then (let (c, s₁) = add_tracker sync (clone b) s in
          sync_loop fuel fuel b c (tracker_id c) timeout (kafka.clock s₁.env +ℤ timeout)
            throw_on_error s₁)
      else produce_once fuel b timeout throw_on_error s

  -- `sync_produce(builder)`.
  unfoldable pub sync_produce_forever : ℕ → MessageBuilder → Run kafka Bool
  sync_produce_forever fuel b = sync_produce fuel b infinite_timeout true

  -- `sync_produce(builder, timeout)`, which passes the infinite timeout on.
  unfoldable pub sync_produce_within : ℕ → MessageBuilder → ℤ → Run kafka Bool
  sync_produce_within fuel b timeout = sync_produce fuel b infinite_timeout true

  -- The loop of `queue_flusher` over the temporary queue.
  unfoldable pub flush_queue : ℕ → ℤ → Bool → List MessageBuilder → Run kafka (Unit {0})
  flush_queue fuel timeout preserve_order [] = pure tt
  flush_queue fuel timeout preserve_order (b ∷ queue) =
      (if preserve_order
        then (sync_produce fuel b timeout false >> pure tt)
        else async_produce kafka fuel b false)
      >> flush_queue fuel timeout preserve_order queue

  -- `queue_flusher` takes the whole queue first.
  unfoldable pub flush_retries : ℕ → ℤ → Bool → Run kafka (Unit {0})
  unfolding flush_queue
  flush_retries fuel timeout preserve_order s =
      flush_queue fuel timeout preserve_order s.retry_messages (record s { retry_messages = [] })

  unfoldable pub flush_messages : ℕ → ℤ → Bool → Run kafka (Unit {0})
  unfolding flush_queue
  flush_messages fuel timeout preserve_order s =
      flush_queue fuel timeout preserve_order s.messages (record s { messages = [] })

  -- The body of `flush` within its counter guard.
  unfoldable pub flush_body : ℕ → ℤ → Bool → Run kafka Bool
  flush_body fuel timeout preserve_order =
      flush_retries fuel timeout preserve_order
      >> (flush_messages fuel timeout preserve_order
          >> ((if preserve_order
                then pure true
                else wait_for_current_thread_acks kafka fuel timeout)
              >> λ s. (done (not (has_current_thread_pending_acks s.thread s.ack_monitor)), s)))

  unfoldable pub leave_flush : Outcome Bool × State kafka → Outcome Bool × State kafka
  leave_flush (r, s) = (r, record s { flushes_in_progress = s.flushes_in_progress - 1 })

  -- `flush(timeout, preserve_order)`: the guard counts the flush also where it throws.
  unfoldable pub flush : ℕ → ℤ → Bool → Run kafka Bool
  unfolding leave_flush
  flush fuel timeout preserve_order s = leave_flush (
      flush_body fuel timeout preserve_order
        (record s { flushes_in_progress = s.flushes_in_progress + 1 }))

  -- `async_flush`.
  unfoldable pub flush_async : ℕ → Run kafka Bool
  flush_async fuel = flush fuel no_timeout false

  unfoldable pub flush_by : FlushMethod → ℕ → Run kafka Bool
  flush_by sync_flush fuel = flush fuel infinite_timeout false
  flush_by async_flush fuel = flush_async fuel

  -- `do_add_message(builder, QueueKind::Produce, FlushAction::DoFlush)`.
  unfoldable pub do_add_message : ℕ → MessageBuilder → Run kafka (Unit {0})
  unfolding flush_by
  do_add_message fuel b s =
      let s₁ = enqueue BufferedProducer.produce b s in
      if must_flush BufferedProducer.produce do_flush s₁
      then (flush_by s₁.flush_method fuel >> pure tt) s₁
      else (done tt, s₁)

  -- `add_message`.
  unfoldable pub add_message : ℕ → MessageBuilder → Run kafka (Unit {0})
  unfolding do_add_message
  add_message fuel b s = let (b₁, s₁) = add_tracker async b s in do_add_message fuel b₁ s₁
