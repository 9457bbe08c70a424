-- ===== src/BufferedProducer/Settings.antt =====
-- Construction, settings, readings and the overloads without a timeout of `BufferedProducer`
-- (include/cppkafka/utils/buffered_producer.h).
use cppkafka.Prelude.{ℕ, ◌^◌, ◌<◌, ◌≡◌, Bool, false, none, [], arith}
use cppkafka.Prelude.Int.{pos, negsuc}
use cppkafka.Prelude.Bytes.{Bytes}
use cppkafka.Errors.{RespErr}
use cppkafka.CallbackInvoker.{Callback}
use cppkafka.Message.{Message}
use cppkafka.MessageBuilder.{MessageBuilder, new_builder}
use cppkafka.AckMonitor.{init}
use cppkafka.AckMonitor
use cppkafka.BufferedProducer.{
  BufferedProducer, FlushMethod, sync_flush, QueueFullNotification, no_notification, size_of_int,
  int_of_size, set_max_number_retries,
}
use cppkafka.BufferedProducer.Monad.{◌>>◌, pure}
use cppkafka.BufferedProducer.Produce.{
  Kafka, Run, infinite_timeout, wait_for_acks, wait_for_current_thread_acks,
}
use cppkafka.BufferedProducer.Flush.{flush}

module _ {E : Type 0} where
  -- The constructor, with the initialisers of the members; `thread` is the thread that calls.
  unfoldable pub new_producer : E → ℕ → BufferedProducer E
  unfolding init
  new_producer env thread = record {
    env = env;
    thread = thread;
    messages = [];
    retry_messages = [];
    produce_failure_callback = none;
    flush_failure_callback = none;
    max_buffer_size = negsuc 0;
    flush_method = sync_flush;
    ack_monitor = init;
    flushes_in_progress = 0;
    total_messages_produced = 0;
    total_messages_dropped = 0;
    max_number_retries = pos 0;
    enable_message_retries = false;
    queue_full_notification = no_notification;
    trackers = [];
    events = [];
    produced = [];
  }

  pub set_flush_method : FlushMethod → BufferedProducer E → BufferedProducer E
  set_flush_method method s = record s { flush_method = method }

  pub set_queue_full_notification : QueueFullNotification → BufferedProducer E → BufferedProducer E
  set_queue_full_notification notification s = record s { queue_full_notification = notification }

  pub set_produce_failure_callback : Callback Message Bool → BufferedProducer E → BufferedProducer E
  set_produce_failure_callback callback s = record s { produce_failure_callback = callback }

  pub set_flush_failure_callback :
      Callback (MessageBuilder × RespErr) Bool → BufferedProducer E → BufferedProducer E
  set_flush_failure_callback callback s = record s { flush_failure_callback = callback }

  -- A signed count as a `size_t`.
  pub get_pending_acks : BufferedProducer E → ℕ
  unfolding size_of_int
  get_pending_acks s = size_of_int (AckMonitor.get_pending_acks s.ack_monitor)

  pub get_current_thread_pending_acks : BufferedProducer E → ℕ
  get_current_thread_pending_acks s =
      AckMonitor.get_current_thread_pending_acks s.thread s.ack_monitor

  -- The `int` member as a `size_t`.
  unfoldable pub get_max_number_retries : BufferedProducer E → ℕ
  unfolding size_of_int
  get_max_number_retries s = size_of_int s.max_number_retries

-- `make_builder`.
pub make_builder : Bytes → MessageBuilder
make_builder topic = new_builder topic

module _ (kafka : Kafka) where
  -- `flush(preserve_order)`.
  pub flush_forever : ℕ → Bool → Run kafka (Unit {0})
  flush_forever fuel preserve_order = flush kafka fuel infinite_timeout preserve_order >> pure tt

  -- `wait_for_acks()` and `wait_for_current_thread_acks()`.
  pub wait_forever : ℕ → Run kafka (Unit {0})
  wait_forever fuel = wait_for_acks kafka fuel infinite_timeout >> pure tt

  pub wait_current_forever : ℕ → Run kafka (Unit {0})
  wait_current_forever fuel = wait_for_current_thread_acks kafka fuel infinite_timeout >> pure tt

-- The number of retries comes back where it fits the `int`; trackers take the same number.
pub get_max_number_retries-set :
    {E : Type 0} (n : ℕ) (s : BufferedProducer E)
    → n < 2 ^ 31
    → get_max_number_retries (set_max_number_retries n s) ≡ n
unfolding get_max_number_retries set_max_number_retries int_of_size size_of_int
get_max_number_retries-set n s h = ground arith
