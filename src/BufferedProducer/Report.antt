-- ===== src/BufferedProducer/Report.antt =====
-- `BufferedProducer::on_delivery_report` of include/cppkafka/utils/buffered_producer.h.
use cppkafka.Prelude.{
  ℕ, ◌+◌, Bool, true, false, Option, none, some, List, [], ◌∷◌, ◌++◌, if◌then◌else◌, get_elem?,
}
use cppkafka.Errors.{is_error}
use cppkafka.CallbackInvoker.{unset_or_true}
use cppkafka.Message.{Message}
use cppkafka.MessageBuilder.{of_message}
use cppkafka.AckMonitor.{decrement_pending_acks}
use cppkafka.BufferedProducer.{
  BufferedProducer, sync, async, retry, should_retry, decrement_retries, produce_success,
  produce_termination, update_tracker, enqueue, may_retry,
}

module _ {E : Type 0} where
  -- Whether the tracker belongs to an asynchronous send.
  unfoldable pub is_async : ℕ → BufferedProducer E → Bool
  is_async p s = elim (get_elem? s.trackers p) [
    | none ↦ false
    | some t ↦ elim t.sender [ sync ↦ false | async ↦ true ]
  ]

  -- The retry of a failed message: an asynchronous one goes to the retry queue.
  unfoldable pub retry_message : Option ℕ → Message → BufferedProducer E → BufferedProducer E
  unfolding is_async
  retry_message none m s = s
  retry_message (some p) m s =
      let s₁ = update_tracker p decrement_retries s in
      if is_async p s₁ then enqueue retry (of_message m) s₁ else s₁

  unfoldable pub drop_message : Message → BufferedProducer E → BufferedProducer E
  drop_message m s = record s {
    total_messages_dropped = s.total_messages_dropped + 1;
    events = s.events ++ produce_termination m ∷ [];
  }

  unfoldable pub deliver_message : Message → BufferedProducer E → BufferedProducer E
  deliver_message m s = record s {
    total_messages_produced = s.total_messages_produced + 1;
    events = s.events ++ produce_success m ∷ [];
  }

  -- The tracker that the report reads.
  abbrev pub tracker_of : Message → BufferedProducer E → Option ℕ
  tracker_of m s = if s.enable_message_retries then m.internal else none

  -- `retry`, the local variable.
  unfoldable pub wants_retry : Message → BufferedProducer E → Bool
  wants_retry m s =
      if is_error m.error
      then (if unset_or_true s.produce_failure_callback m
          then may_retry (tracker_of m s) s
          else false)
      else false

  -- The signal to a synchronous sender.
  unfoldable pub signal : Option ℕ → Bool → BufferedProducer E → BufferedProducer E
  signal none value s = s
  signal (some p) value s = update_tracker p (should_retry value) s

  unfoldable pub settle : Message → BufferedProducer E → BufferedProducer E
  settle m s =
      if is_error m.error
      then (if wants_retry m s then retry_message (tracker_of m s) m s else drop_message m s)
      else deliver_message m s

  -- `on_delivery_report`.
  unfoldable pub on_delivery_report : Message → BufferedProducer E → BufferedProducer E
  on_delivery_report m s =
      let s₁ = signal (tracker_of m s) (wants_retry m s) (settle m s) in
      record s₁ { ack_monitor = decrement_pending_acks s₁.ack_monitor }

  -- librdkafka serves the reports that are due one after the other, in `poll` and in `flush`.
  unfoldable pub serve : List Message → BufferedProducer E → BufferedProducer E
  serve [] s = s
  serve (m ∷ ms) s = serve ms (on_delivery_report m s)
