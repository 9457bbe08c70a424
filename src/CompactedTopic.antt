-- ===== src/CompactedTopic.antt =====
-- A consumer of compacted topics: include/cppkafka/utils/compacted_topic_processor.h. The messages
-- and the assignments that its consumer delivers are the arguments of the two handlers.
pub mod Offsets
pub mod Assignment
pub mod View
pub mod Log
pub mod Resume
pub mod Refinement
mod Tests
use cppkafka.Prelude.{
  ℕ, Bool, true, false, Option, none, some, List, [], ◌∷◌, ◌++◌, any, if◌then◌else◌, is_some, not,
  ◌==◌, length,
}
use cppkafka.Prelude.Int.{ℤ}
use cppkafka.Prelude.Bytes.{Bytes}
use cppkafka.Prelude.Order.{equiv}
use cppkafka.Prelude.OrderedMap.{OrderedMap, find, assign}
use cppkafka.Errors.{is_error}
use cppkafka.Message.{Message, is_eof}
use cppkafka.TopicPartition.{TopicPartition, Constants, at_partition, set_offset, tp_lt}

-- `CompactedTopicEvent`: a topic, a partition and, by the type of the event, a key and a value.
pub data Event (Key Value : Type 0) : Type 0 where
  set_element : Bytes → ℤ → Key → Value → Event Key Value
  delete_element : Bytes → ℤ → Key → Event Key Value
  clear_elements : Bytes → ℤ → Event Key Value
  reached_eof : Bytes → ℤ → Event Key Value

-- The members of `CompactedTopicProcessor`; `events` and `failures` are what the event handler and
-- the error handler were given.
pub record Processor (Key Value : Type 0) : Type 0 where
  pub key_decoder : Bytes → Option Key
  pub value_decoder : Key → Bytes → Option Value
  pub has_error_handler : Bool
  pub original_assignment_callback : Option (List TopicPartition → List TopicPartition)
  pub partition_offsets : OrderedMap TopicPartition ℤ
  pub events : List (Event Key Value)
  pub failures : List Message

module _ {Key Value : Type 0} where
  -- `event_handler_(event)`.
  unfoldable pub emit : Event Key Value → Processor Key Value → Processor Key Value
  emit e p = record p { events = p.events ++ e ∷ [] }

  set_event : Message → Key → Option Value → List (Event Key Value)
  set_event m k none = []
  set_event m k (some v) = set_element m.topic m.partition k v ∷ []

  key_event : (Key → Bytes → Option Value) → Message → Option Key → List (Event Key Value)
  unfolding set_event
  key_event decode m none = []
  key_event decode m (some k) =
      if not (length m.payload == 0)
      then set_event m k (decode k m.payload)
      else delete_element m.topic m.partition k ∷ []

  -- The events of a message without an error: a payload that decodes sets the element of the key,
  -- no payload deletes it.
  unfoldable pub element_events : Message → Processor Key Value → List (Event Key Value)
  unfolding key_event
  element_events m p = key_event p.value_decoder m (p.key_decoder m.key)

  -- The offset that is kept for the partition of a message.
  unfoldable pub store_offset : Constants → Message → Processor Key Value → Processor Key Value
  store_offset k m p = record p {
    partition_offsets =
        assign tp_lt (at_partition k m.topic m.partition) m.offset p.partition_offsets;
  }

  unfoldable pub process_message : Constants → Message → Processor Key Value → Processor Key Value
  unfolding emit store_offset
  process_message k m p =
      if not (is_error m.error)
      then store_offset k m (record p { events = p.events ++ element_events m p })
      else if is_eof m
      then emit (reached_eof m.topic m.partition) p
      else if p.has_error_handler
      then record p { failures = p.failures ++ m ∷ [] }
      else p

  -- `process_event`; a poll that times out gives no message.
  unfoldable pub process_event :
      Constants → Option Message → Processor Key Value → Processor Key Value
  process_event k none p = p
  process_event k (some m) p = process_message k m p

unfoldable pub or_unchanged :
    Option (List TopicPartition → List TopicPartition) → List TopicPartition → List TopicPartition
or_unchanged none ps = ps
or_unchanged (some f) ps = f ps

-- The offset of one partition of a new assignment.
unfoldable pub restore_offset : OrderedMap TopicPartition ℤ → TopicPartition → TopicPartition
restore_offset offsets p = elim (find tp_lt p offsets) [
  | none ↦ p
  | some offset ↦ set_offset offset p
]

unfoldable pub restore : OrderedMap TopicPartition ℤ → List TopicPartition → List TopicPartition
restore offsets [] = []
restore offsets (p ∷ ps) = restore_offset offsets p ∷ restore offsets ps

-- `partitions_found.count(p) != 0`.
unfoldable pub found : List TopicPartition → TopicPartition → Bool
found [] p = false
found (q ∷ qs) p = if equiv tp_lt q p then true else found qs p

-- The loop over the cache: what stays in it, and what is gone.
unfoldable pub still_assigned :
    List TopicPartition → OrderedMap TopicPartition ℤ → OrderedMap TopicPartition ℤ
still_assigned ps [] = []
still_assigned ps ((p, offset) ∷ m) =
    if found ps p then (p, offset) ∷ still_assigned ps m else still_assigned ps m

unfoldable pub clear_events :
    {Key Value : Type 0}
    → List TopicPartition
    → OrderedMap TopicPartition ℤ
    → List (Event Key Value)
clear_events ps [] = []
clear_events ps ((p, offset) ∷ m) =
    if found ps p then clear_events ps m else clear_elements p.topic p.partition ∷ clear_events ps m

-- `on_assignment`: the assignment as it leaves the handler, and the processor.
unfoldable pub on_assignment :
    {Key Value : Type 0}
    → List TopicPartition
    → Processor Key Value
    → List TopicPartition × Processor Key Value
unfolding or_unchanged
on_assignment partitions p =
    let restored =
      restore p.partition_offsets (or_unchanged p.original_assignment_callback partitions) in
    (
      restored,
      record p {
        partition_offsets = still_assigned restored p.partition_offsets;
        events = p.events ++ clear_events restored p.partition_offsets;
      },
    )
