-- ===== src/Consumer/Tests.antt =====
-- The theorems on the consumer at a concrete client.
use cppkafka.Prelude.{ℕ, suc, ◌≡◌, true, false, some, none, [], ◌∷◌, ◌++◌}
use cppkafka.Prelude.Int.{pos}
use cppkafka.Prelude.Bytes.{codes}
use cppkafka.Errors.{no_error, assign_partitions}
use cppkafka.TopicPartition.{TopicPartition}
use cppkafka.TopicPartitionList.{Element}
use cppkafka.Consumer.{Client, Consumer, handle_rebalance}
use cppkafka.Consumer.Rebalance.{announced, answered, handle_rebalance-events}

abbrev element : Element
element = record { topic = codes "test"; partition = pos 2; offset = pos 41; err = no_error }

-- A client whose calls all succeed and count, with one partition assigned.
abbrev client : Client
client = record {
  Env = ℕ;
  subscribe = λ es env. (no_error, suc env);
  unsubscribe = λ env. (no_error, suc env);
  assign = λ es env. ((no_error, es), suc env);
  unassign = λ env. (no_error, suc env);
  commit_list = λ es a env. ((no_error, es), suc env);
  commit_all = λ a env. (no_error, suc env);
  commit_message = λ m a env. (no_error, suc env);
  committed = λ es t env. ((no_error, es), suc env);
  position = λ es env. ((no_error, element ∷ []), suc env);
  offsets_store = λ es env. ((no_error, es), suc env);
  assignment = λ env. ((no_error, element ∷ []), suc env);
  subscription = λ env. ((no_error, []), suc env);
  close = λ env. (no_error, suc env);
  pause = λ es env. ((no_error, es), suc env);
  resume = λ es env. ((no_error, es), suc env);
  watermark_offsets = λ topic p env. ((no_error, (pos 0, pos 9)), suc env);
  offset_store = λ m env. (no_error, suc env);
  consumer_poll = λ timeout env. (none, suc env);
  consume_batch = λ size timeout env. (none, suc env);
  last_error = λ env. no_error;
}

abbrev partition : TopicPartition
partition = record { topic = codes "test"; partition = pos 2; offset = pos 0 }

abbrev consumer : Consumer client
consumer = record {
  env = 0;
  assignment_callback = some (λ ps. partition ∷ ps);
  has_revocation_callback = true;
  has_rebalance_error_callback = false;
  events = [];
}

handle_rebalance-events_example :
    (handle_rebalance client assign_partitions (partition ∷ []) consumer).1.events
    ≡ (consumer.events ++ announced assign_partitions (partition ∷ []) consumer)
      ++ answered assign_partitions (partition ∷ []) consumer ∷ []
handle_rebalance-events_example =
    handle_rebalance-events client assign_partitions (partition ∷ []) consumer
