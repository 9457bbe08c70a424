-- ===== src/BufferedProducer/Tests.antt =====
-- The theorems on the producer at concrete states and concrete behaviours of librdkafka.
use cppkafka.Prelude.{
  ℕ, suc, ◌+◌, ◌≤◌, ◌<◌, ◌≡◌, ◌⊎◌, refl, true, false, none, some, [], ◌∷◌, ◌++◌, length,
}
use cppkafka.Prelude.Int.{pos, negsuc}
use cppkafka.Prelude.Bytes.{codes}
use cppkafka.Errors.{RespErr, no_error, queue_full, other, resp_eq}
use cppkafka.Message.{Message}
use cppkafka.MessageBuilder.{MessageBuilder}
use cppkafka.BufferedProducer.{
  BufferedProducer, async, async_flush, no_notification, get_buffer_size,
}
use cppkafka.BufferedProducer.Monad.{no_fuel, blocked}
use cppkafka.BufferedProducer.Report.{serve}
use cppkafka.BufferedProducer.Conservation.{remaining, settled, serve-books}
use cppkafka.BufferedProducer.Produce.{Kafka}
use cppkafka.BufferedProducer.Flush.{flush, add_message, sync_produce}
use cppkafka.BufferedProducer.Order.{InOrder, flush-InOrder, flush_complete}
use cppkafka.BufferedProducer.Buffering.{add_message-bounded}
use cppkafka.BufferedProducer.Deadlock.{sync_produce-blocks}

-- librdkafka that answers every send with one code.
abbrev pub answering : RespErr → Kafka
answering e = record {
  Env = ℕ;
  produce = λ b env. (e, suc env);
  poll = λ env. ([], suc env);
  flush = λ timeout env. ([], (no_error, suc env));
  clock = λ env. pos env;
}

abbrev pub builder : MessageBuilder
builder = record {
  topic = codes "test";
  partition = negsuc 0;
  key = [];
  headers = none;
  payload = codes "a";
  timestamp = pos 0;
  user_data = 0;
  internal = none;
}

-- Retries are enabled, and one message waits in each queue.
abbrev pub waiting : BufferedProducer ℕ
waiting = record {
  env = 0;
  thread = 1;
  messages = builder ∷ [];
  retry_messages = record builder { payload = codes "b"; internal = some 0 } ∷ [];
  produce_failure_callback = none;
  flush_failure_callback = none;
  max_buffer_size = pos 2;
  flush_method = async_flush;
  ack_monitor = record { flag = false; sent_acks = 0; received_acks = 0; last_ack = [] };
  flushes_in_progress = 0;
  total_messages_produced = 0;
  total_messages_dropped = 0;
  max_number_retries = pos 3;
  enable_message_retries = true;
  queue_full_notification = no_notification;
  trackers = record { sender = async; retry_promise = none; num_retries = 3 } ∷ [];
  events = [];
  produced = [];
}

-- The report that the message of the tracker failed.
abbrev pub failed : Message
failed = record {
  error = other 1;
  topic = codes "test";
  partition = pos 0;
  payload = codes "b";
  key = [];
  headers = none;
  offset = pos 0;
  timestamp = none;
  user_data = 0;
  internal = some 0;
}

serve-books_example :
    (settled (serve (failed ∷ failed ∷ []) waiting) + remaining waiting.trackers
      ≡ settled waiting
        + remaining (serve (failed ∷ failed ∷ []) waiting).trackers
        + length (failed ∷ failed ∷ []))
    × (length (failed ∷ failed ∷ [])
        ≤ settled (serve (failed ∷ failed ∷ []) waiting) + remaining waiting.trackers)
serve-books_example = serve-books (failed ∷ failed ∷ []) waiting

flush-InOrder_example :
    let (r, t) = flush (answering (other 1)) 5 (pos 0) false waiting in
    InOrder (answering (other 1)) (waiting.retry_messages ++ waiting.messages) waiting t
    × ((t.messages ≡ []) ⊎ (r ≡ no_fuel))
flush-InOrder_example = flush-InOrder (answering (other 1)) 5 (pos 0) waiting

flush_complete_example :
    let t = (flush (answering no_error) 6 (pos 0) false waiting).1 in
    (t.produced ≡ waiting.produced ++ (waiting.retry_messages ++ waiting.messages))
    × (t.messages ≡ [])
flush_complete_example = flush_complete (answering no_error) (λ b env. refl) 5 (pos 0) waiting

add_message-bounded_example :
    let (r, t) = add_message (answering no_error) 5 builder waiting in
    (t.messages ≡ []) ⊎ ((get_buffer_size t < 2) ⊎ (r ≡ no_fuel))
add_message-bounded_example = add_message-bounded (answering no_error) 5 2 builder waiting refl

not_sent : resp_eq (other 1) no_error ≡ false
unfolding resp_eq
not_sent = refl

not_full : resp_eq (other 1) queue_full ≡ false
unfolding resp_eq
not_full = refl

sync_produce-blocks_example :
    (sync_produce (answering (other 1)) 5 builder (pos 10) true waiting).0 ≡ blocked
sync_produce-blocks_example =
    sync_produce-blocks (answering (other 1)) (other 1) not_sent not_full (λ b env. refl) 4 2
      builder (pos 10) true waiting refl refl refl refl
