-- ===== src/TopicPartition/Tests.antt =====
-- Runs on partitions, and the theorems on their order at concrete partitions.
use cppkafka.Prelude.{◌≡◌, refl, true}
use cppkafka.Prelude.Int.{pos, negsuc}
use cppkafka.Prelude.Bytes.{codes, bytes_lt}
use cppkafka.Errors.{to_string}
use cppkafka.TopicPartition.{TopicPartition, Constants, at_partition, tp_lt, print}

abbrev constants : Constants
constants = record { partition_ua = negsuc 0; offset_invalid = negsuc 1000 }

abbrev fifth : TopicPartition
fifth = record { topic = codes "test"; partition = pos 5; offset = pos 100 }

abbrev fifth_again : TopicPartition
fifth_again = at_partition constants (codes "test") (pos 5)

print_runs : print constants fifth ≡ codes "test[5:100]"
unfolding print to_string
print_runs = refl

tp_lt_runs : tp_lt (at_partition constants (codes "test") (pos 4)) fifth ≡ true
unfolding tp_lt bytes_lt at_partition
tp_lt_runs = refl
