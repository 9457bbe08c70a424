-- ===== src/TopicPartition.antt =====
-- A topic, a partition and an offset: src/topic_partition.cpp.
pub mod Order
mod Tests
use cppkafka.Prelude.{Bool, not, ◌&&◌, ◌||◌, ◌++◌, [], ◌∷◌, if◌then◌else◌}
use cppkafka.Prelude.Int.{ℤ, ltb_ℤ, eqb_ℤ}
use cppkafka.Prelude.Bytes.{Bytes, codes, bytes_eq, bytes_lt}
use cppkafka.Errors.{to_string}

pub record TopicPartition : Type 0 where
  pub topic : Bytes
  pub partition : ℤ
  pub offset : ℤ

-- librdkafka's `RD_KAFKA_PARTITION_UA` and `RD_KAFKA_OFFSET_INVALID`.
pub record Constants : Type 0 where
  pub partition_ua : ℤ
  pub offset_invalid : ℤ

-- TopicPartition(topic, partition): the offset is the invalid one.
unfoldable pub at_partition : Constants → Bytes → ℤ → TopicPartition
at_partition k topic partition = record {
  topic = topic;
  partition = partition;
  offset = k.offset_invalid;
}

-- TopicPartition(topic): no partition yet.
unfoldable pub of_topic : Constants → Bytes → TopicPartition
unfolding at_partition
of_topic k topic = at_partition k topic k.partition_ua

pub set_partition : ℤ → TopicPartition → TopicPartition
set_partition partition p = record p { partition = partition }

unfoldable pub set_offset : ℤ → TopicPartition → TopicPartition
set_offset offset p = record p { offset = offset }

-- `operator<`: the order of the tuples (topic, partition).
unfoldable pub tp_lt : TopicPartition → TopicPartition → Bool
tp_lt a b =
    bytes_lt a.topic b.topic || (not (bytes_lt b.topic a.topic) && ltb_ℤ a.partition b.partition)

-- `operator==`.
unfoldable pub tp_eq : TopicPartition → TopicPartition → Bool
tp_eq a b = bytes_eq a.topic b.topic && eqb_ℤ a.partition b.partition

-- `operator!=`.
unfoldable pub tp_ne : TopicPartition → TopicPartition → Bool
unfolding tp_eq
tp_ne a b = not (tp_eq a b)

-- `operator<<`.
unfoldable pub print : Constants → TopicPartition → Bytes
unfolding to_string
print k p =
    p.topic
    ++ codes "["
    ++ to_string p.partition
    ++ codes ":"
    ++ (if eqb_ℤ p.offset k.offset_invalid then codes "#" else to_string p.offset)
    ++ codes "]"
