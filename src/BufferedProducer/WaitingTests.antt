-- ===== src/BufferedProducer/WaitingTests.antt =====
-- The theorems on waits that end, at concrete runs of a buffered producer.
use cppkafka.Prelude.{
  ℕ, suc, ◌≤◌, ◌≡◌, refl, true, false, none, some, [], ◌∷◌, ◌++◌, length, zero, ap, List, arith,
  Option, any,
}
use cppkafka.Prelude.Int.{pos}
use cppkafka.Errors.{no_error}
use cppkafka.Message.{Message}
use cppkafka.MessageBuilder.{MessageBuilder}
use cppkafka.AckMonitor.{has_current_thread_pending_acks, last}
use cppkafka.BufferedProducer.{BufferedProducer, async_flush, size_of_int, no_notification}
use cppkafka.BufferedProducer.Monad.{done}
use cppkafka.BufferedProducer.Produce.{Kafka, infinite_timeout}
use cppkafka.BufferedProducer.Flush.{flush, sync_produce}
use cppkafka.BufferedProducer.Waiting.{Delivers, IsTracked, IsQuiet}
use cppkafka.BufferedProducer.Signals.{hits}
use cppkafka.BufferedProducer.Ended.{EndsWithin, sync_produce-ends}
use cppkafka.BufferedProducer.Ordered.{flush-delivers}
use cppkafka.BufferedProducer.Tests.{builder, failed, waiting}

abbrev delivered : Message
delivered = record failed { error = no_error }

abbrev delivered_times : ℕ → List Message
delivered_times zero = []
delivered_times (suc n) = delivered ∷ delivered_times n

length-delivered_times : (n : ℕ) → length (delivered_times n) ≡ n
length-delivered_times zero = refl
length-delivered_times (suc n) = ap suc (length-delivered_times n)

-- librdkafka that delivers everything; the environment is the number of messages outstanding.
abbrev delivering : Kafka
delivering = record {
  Env = ℕ;
  produce = λ b env. (no_error, suc env);
  poll = λ env. ([], env);
  flush = λ timeout env. (delivered_times env, (no_error, 0));
  clock = λ env. pos 0;
}

abbrev delivering-Delivers : Delivers delivering
delivering-Delivers = record {
  outstanding = λ env. env;
  accepts = λ b env. refl;
  sent = λ b env. omega arith;
  flushed = λ env. refl;
  served = length-delivered_times;
  drained = λ env. refl;
}

-- The same queues without retries.
abbrev plain : BufferedProducer ℕ
plain = record waiting { enable_message_retries = false }

none_known : (t n : ℕ) → last t [] ≡ some n → n ≤ 0
unfolding last
none_known t n e = cc

plain-IsTracked : IsTracked delivering delivering-Delivers false plain
plain-IsTracked = record {
  setting = refl;
  counted = record { free = refl; known = λ t n e. none_known t n e };
  covered = omega arith;
}

plain-IsQuiet : IsQuiet delivering delivering-Delivers plain
unfolding has_current_thread_pending_acks last
plain-IsQuiet = refl

flush-delivers_example :
    let (r, t) = flush delivering 1 infinite_timeout true plain in
    (r ≡ done true)
    × (t.produced ≡ plain.produced ++ (plain.retry_messages ++ plain.messages))
    × (t.messages ≡ [])
    × IsQuiet delivering delivering-Delivers t
flush-delivers_example =
    flush-delivers delivering delivering-Delivers 0 plain plain-IsTracked plain-IsQuiet

-- librdkafka that fails every message; the environment has the trackers of the messages that are
-- outstanding.
abbrev failing_all : List (Option ℕ) → List Message
failing_all [] = []
failing_all (o ∷ os) = record failed { internal = o } ∷ failing_all os

length-failing_all : (os : List (Option ℕ)) → length (failing_all os) ≡ length os
length-failing_all [] = refl
length-failing_all (o ∷ os) = ap suc (length-failing_all os)

abbrev failing : Kafka
failing = record {
  Env = List (Option ℕ);
  produce = λ b env. (no_error, b.internal ∷ env);
  poll = λ env. ([], env);
  flush = λ timeout env. (failing_all env, (no_error, []));
  clock = λ env. pos 0;
}

abbrev failing-Delivers : Delivers failing
failing-Delivers = record {
  outstanding = λ env. length env;
  accepts = λ b env. refl;
  sent = λ b env. omega arith;
  flushed = λ env. refl;
  served = length-failing_all;
  drained = λ env. refl;
}

failing_reports :
    (b : MessageBuilder) (env : List (Option ℕ)) (p : ℕ)
    → b.internal ≡ some p
    → any (λ m. hits m.internal p) (failing_all (b.internal ∷ env)) ≡ true
failing_reports b env p h = rw h (ground arith)

-- Three retries.
abbrev retrying : BufferedProducer (List (Option ℕ))
retrying = record {
  env = [];
  thread = 1;
  messages = [];
  retry_messages = [];
  produce_failure_callback = none;
  flush_failure_callback = none;
  max_buffer_size = pos 2;
  flush_method = async_flush;
  ack_monitor = record { flag = false; sent_acks = 0; received_acks = 0; last_ack = [] };
  flushes_in_progress = 0;
  total_messages_produced = 0;
  total_messages_dropped = 0;
  max_number_retries = pos 3;
  enable_message_retries = true;
  queue_full_notification = no_notification;
  trackers = [];
  events = [];
  produced = [];
}

retrying-IsTracked : IsTracked failing failing-Delivers true retrying
retrying-IsTracked = record {
  setting = refl;
  counted = record { free = refl; known = λ t n e. none_known t n e };
  covered = omega arith;
}

enough : size_of_int (pos 3) ≤ 3
unfolding size_of_int
enough = omega arith

sync_produce-ends_example :
    EndsWithin failing failing-Delivers failing_reports
      (length retrying.trackers)
      (size_of_int retrying.max_number_retries)
      (sync_produce failing 4 builder infinite_timeout true retrying)
sync_produce-ends_example =
    sync_produce-ends failing failing-Delivers failing_reports 3 builder true retrying
      retrying-IsTracked refl enough
