-- ===== src/Metadata.antt =====
-- Metadata of topics, partitions and brokers: src/metadata.cpp. The structs of librdkafka are
-- parameters of the functions that read them.
pub mod Filters
mod Tests
use cppkafka.Prelude.{
  ℕ, zero, suc, ◌+◌, ◌-◌, ◌%◌, ◌^◌, Bool, true, false, Option, none, some, List, [], ◌∷◌, ◌==◌, any,
  if◌then◌else◌,
}
use cppkafka.Prelude.Int.{ℤ, pos, negsuc}
use cppkafka.Prelude.Bytes.{Bytes, bytes_eq}
use cppkafka.Errors.{RespErr}

-- `rd_kafka_metadata_partition`.
pub record RawPartition : Type 0 where
  pub id : ℤ
  pub err : RespErr
  pub leader : ℤ
  pub replicas : List ℤ
  pub isrs : List ℤ

-- `rd_kafka_metadata_topic`.
pub record RawTopic : Type 0 where
  pub topic : Bytes
  pub err : RespErr
  pub partitions : List RawPartition

-- `rd_kafka_metadata_broker_t`.
pub record RawBroker : Type 0 where
  pub id : ℤ
  pub host : Bytes
  pub port : ℤ

-- `rd_kafka_metadata_t`.
pub record RawMetadata : Type 0 where
  pub brokers : List RawBroker
  pub topics : List RawTopic

-- The conversion of an `int` to an unsigned type of `w` bits.
unfoldable pub to_unsigned : ℕ → ℤ → ℕ
to_unsigned w (pos n) = n % 2 ^ w
to_unsigned w (negsuc n) = 2 ^ w - 1 - n % 2 ^ w

pub record PartitionMetadata : Type 0 where
  pub id : ℕ
  pub error : RespErr
  pub leader : ℤ
  pub replicas : List ℤ
  pub isrs : List ℤ

pub record TopicMetadata : Type 0 where
  pub name : Bytes
  pub error : RespErr
  pub partitions : List PartitionMetadata

pub record BrokerMetadata : Type 0 where
  pub host : Bytes
  pub id : ℤ
  pub port : ℕ

-- PartitionMetadata(partition): the id is the `uint32_t` that `get_id` gives.
unfoldable pub make_partition : RawPartition → PartitionMetadata
unfolding to_unsigned
make_partition p = record {
  id = to_unsigned 32 p.id;
  error = p.err;
  leader = p.leader;
  replicas = p.replicas;
  isrs = p.isrs;
}

unfoldable pub make_partitions : List RawPartition → List PartitionMetadata
make_partitions [] = []
make_partitions (p ∷ ps) = make_partition p ∷ make_partitions ps

-- TopicMetadata(topic).
unfoldable pub make_topic : RawTopic → TopicMetadata
make_topic t = record { name = t.topic; error = t.err; partitions = make_partitions t.partitions }

-- BrokerMetadata(broker): the port is a `uint16_t`.
pub make_broker : RawBroker → BrokerMetadata
unfolding to_unsigned
make_broker b = record { host = b.host; id = b.id; port = to_unsigned 16 b.port }

make_brokers : List RawBroker → List BrokerMetadata
make_brokers [] = []
make_brokers (b ∷ bs) = make_broker b ∷ make_brokers bs

unfoldable pub make_topics : List RawTopic → List TopicMetadata
make_topics [] = []
make_topics (t ∷ ts) = make_topic t ∷ make_topics ts

-- `get_brokers`.
pub get_brokers : RawMetadata → List BrokerMetadata
unfolding make_brokers
get_brokers m = make_brokers m.brokers

-- `get_topics`.
unfoldable pub get_topics : RawMetadata → List TopicMetadata
get_topics m = make_topics m.topics

-- The loop of `get_topics(topics)`; the set is the list of its elements.
unfoldable pub topics_in : List Bytes → List RawTopic → List TopicMetadata
topics_in names [] = []
topics_in names (t ∷ ts) =
    if any (λ name. bytes_eq name t.topic) names
    then make_topic t ∷ topics_in names ts
    else topics_in names ts

-- `get_topics(topics)`.
unfoldable pub get_topics_in : List Bytes → RawMetadata → List TopicMetadata
get_topics_in names m = topics_in names m.topics

-- Whether a text stands at the start of another.
unfoldable pub starts_with : Bytes → Bytes → Bool
starts_with [] text = true
starts_with (x ∷ xs) [] = false
starts_with (x ∷ xs) (y ∷ ys) = if x == y then starts_with xs ys else false

-- `std::string::find`: the first position at which the text stands; `none` is `npos`.
unfoldable pub find_from : Bytes → Bytes → ℕ → Option ℕ
find_from word [] i = if starts_with word [] then some i else none
find_from word (y ∷ ys) i = if starts_with word (y ∷ ys) then some i else find_from word ys (suc i)

unfoldable pub is_zero : Option ℕ → Bool
is_zero none = false
is_zero (some i) = i == 0

-- The loop of `get_topics_prefixed`.
unfoldable pub topics_prefixed : Bytes → List RawTopic → List TopicMetadata
topics_prefixed prefix [] = []
topics_prefixed prefix (t ∷ ts) =
    if is_zero (find_from prefix t.topic 0)
    then make_topic t ∷ topics_prefixed prefix ts
    else topics_prefixed prefix ts

-- `get_topics_prefixed`.
unfoldable pub get_topics_prefixed : Bytes → RawMetadata → List TopicMetadata
get_topics_prefixed prefix m = topics_prefixed prefix m.topics
