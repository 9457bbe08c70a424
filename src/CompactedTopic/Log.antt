-- ===== src/CompactedTopic/Log.antt =====
-- The log that the consumer of a compacted topic reads, as changes of a table, and the processor
-- that reads it (include/cppkafka/utils/compacted_topic_processor.h).
use cppkafka.Prelude.{
  ◌≡◌, refl, Bool, false, ◌&&◌, Option, none, some, List, [], ◌∷◌, arith, if◌then◌else◌, length,
  ◌==◌,
}
use cppkafka.Prelude.Bytes.{Bytes}
use cppkafka.Errors.{is_error}
use cppkafka.Message.{Message}
use cppkafka.TopicPartition.{TopicPartition, Constants, at_partition, tp_eq}
use cppkafka.CompactedTopic.{Processor, process_event, on_assignment, or_unchanged, found}
use cppkafka.CompactedTopic.View.{Table}

-- What the consumer delivers, in order: the results of its polls and its assignments.
pub data Delivery : Type 0 where
  polled : Option Message → Delivery
  assigned : List TopicPartition → Delivery

module _ {Key Value : Type 0} where
  unfoldable pub deliver : Constants → Delivery → Processor Key Value → Processor Key Value
  deliver c (polled m) p = process_event c m p
  deliver c (assigned ps) p = (on_assignment ps p).1

  unfoldable pub run : Constants → List Delivery → Processor Key Value → Processor Key Value
  unfolding deliver
  run c [] p = p
  run c (d ∷ ds) p = run c ds (deliver c d p)

-- What a message without an error does to a table: its key, and its payload, where they decode.
module _ {Key Value : Type 0} (key_decoder : Bytes → Option Key)
    (value_decoder : Key → Bytes → Option Value)
    (callback : Option (List TopicPartition → List TopicPartition)) (c : Constants)
    (same : Key → Key → Bool) where
  unfoldable pub write_value :
      Message → Key → Option Value → Table Key Value → TopicPartition → Key → Option Value
  write_value m k none table place key = table place key
  write_value m k (some v) table place key =
      if tp_eq (at_partition c m.topic m.partition) place && same k key
      then some v
      else table place key

  pub write_value-elsewhere :
      (m : Message) (k : Key) (o : Option Value) (table : Table Key Value) (place : TopicPartition)
      (key : Key)
      → tp_eq (at_partition c m.topic m.partition) place ≡ false
      → write_value m k o table place key ≡ table place key
  unfolding write_value
  write_value-elsewhere m k none table place key h = refl
  write_value-elsewhere m k (some v) table place key h = rw h refl

  unfoldable pub write_key :
      Message → Option Key → Table Key Value → TopicPartition → Key → Option Value
  unfolding write_value
  write_key m none table place key = table place key
  write_key m (some k) table place key =
      if length m.payload == 0
      then if tp_eq (at_partition c m.topic m.partition) place && same k key
        then none
        else table place key
      else write_value m k (value_decoder k m.payload) table place key

  -- The log that the consumer reads, as changes of a table: a message without an error writes its
  -- element, and an assignment drops every partition that it does not have.
  unfoldable pub on_delivery : Delivery → Table Key Value → TopicPartition → Key → Option Value
  unfolding write_key
  on_delivery (polled none) table place key = table place key
  on_delivery (polled (some m)) table place key =
      if is_error m.error then table place key else write_key m (key_decoder m.key) table place key
  on_delivery (assigned ps) table place key =
      if found (or_unchanged callback ps) place then table place key else none

  unfoldable pub replay : List Delivery → Table Key Value → Table Key Value
  replay [] table = table
  replay (d ∷ ds) table = replay ds (on_delivery d table)

  -- A message changes the value of no other partition.
  pub write_key-elsewhere :
      (m : Message) (o : Option Key) (table : Table Key Value) (place : TopicPartition) (key : Key)
      → tp_eq (at_partition c m.topic m.partition) place ≡ false
      → write_key m o table place key ≡ table place key
  unfolding write_key
  write_key-elsewhere m none table place key h = refl
  write_key-elsewhere m (some k) table place key h =
      ground (arith, write_value-elsewhere m k (value_decoder k m.payload) table place key h)
