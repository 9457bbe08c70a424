-- ===== src/RoundRobin/Tests.antt =====
-- The theorems on the round-robin strategy at three partitions.
use cppkafka.Prelude.{ℕ, suc, ◌≡◌, none, some, List, [], ◌∷◌, arith}
use cppkafka.Prelude.Int.{pos, negsuc}
use cppkafka.Prelude.Bytes.{codes}
use cppkafka.TopicPartition.{TopicPartition}
use cppkafka.RoundRobin.{QueueSystem, Strategy, poll}
use cppkafka.RoundRobin.Callbacks.{
  Callbacks, Rebalance, assigns, revokes, own, take_over, give_back, handle_all,
  handle_all-transparent,
}
use cppkafka.RoundRobin.Turns.{Asked, poll-asks}

-- Queues that are empty; a queue is the number of its partition.
abbrev empty_queues : QueueSystem
empty_queues = record {
  Handle = ℕ;
  Env = ℕ;
  partition_queue = λ p. 9;
  consume = λ h timeout env. (none, suc env);
  consume_batch = λ h count timeout env. ([], suc env);
}

abbrev partition_of : ℕ → TopicPartition
partition_of n = record { topic = codes "test"; partition = pos n; offset = negsuc 1000 }

abbrev strategy : Strategy empty_queues
strategy = record {
  consumer_queue = 100;
  partition_queues = (partition_of 0, 0) ∷ (partition_of 1, 1) ∷ (partition_of 2, 2) ∷ [];
  queue_iter = 1;
  env = 0;
  asked = [];
}

poll-asks_example : Asked empty_queues 3 strategy (poll empty_queues (pos 5) strategy)
poll-asks_example = poll-asks empty_queues (pos 5) strategy (omega arith)

-- An application that is told of assignments and of revocations.
abbrev callbacks : Callbacks
callbacks = record {
  assignment = some (λ ps. ps);
  has_revocation = some tt;
  has_rebalance_error = none;
}

abbrev rebalances : List (Rebalance empty_queues)
rebalances = assigns (partition_of 1 ∷ []) ∷ revokes (partition_of 1 ∷ []) ∷ []

handle_all-transparent_example :
    let (told, slot) =
      handle_all empty_queues rebalances
        (take_over empty_queues strategy (partition_of 2 ∷ []) callbacks) in
    (told ≡ (handle_all empty_queues rebalances (own callbacks)).0)
    × (give_back empty_queues slot ≡ own callbacks)
    × ((handle_all empty_queues rebalances (own callbacks)).1 ≡ own callbacks)
handle_all-transparent_example =
    handle_all-transparent empty_queues rebalances strategy (partition_of 2 ∷ []) callbacks
