-- ===== src/CompactedTopic/Offsets.antt =====
-- The offsets that `CompactedTopicProcessor::process_event` keeps
-- (include/cppkafka/utils/compacted_topic_processor.h).
use cppkafka.Prelude.{
  ◌≡◌, refl, not, ◌&&◌, some, [], ◌∷◌, ◌++◌, arith, if◌then◌else◌, Bool-cases, inl, inr,
}
use cppkafka.Prelude.OrderedMap.{find, find-assign}
use cppkafka.Errors.{is_error}
use cppkafka.Message.{Message, is_eof}
use cppkafka.TopicPartition.{TopicPartition, Constants, at_partition, tp_lt, tp_eq}
use cppkafka.TopicPartition.Order.{tp_lt-StrictWeakOrder, equiv-tp_lt}
use cppkafka.CompactedTopic.{
  Processor, reached_eof, emit, element_events, store_offset, process_message, process_event,
}

-- A message without an error makes the partition that it came from look up to its offset, leaves
-- every other partition's offset as it was, and hands out the events of its element; a message with
-- an error changes no offset, and hands out an end-of-partition event where it reports one.
pub process_event-offsets :
    {Key Value : Type 0} (k : Constants) (m : Message) (p : Processor Key Value)
    (x : TopicPartition)
    → let q = process_event k (some m) p in
      (find tp_lt x q.partition_offsets ≡ (
        if not (is_error m.error) && tp_eq (at_partition k m.topic m.partition) x
        then some m.offset
        else find tp_lt x p.partition_offsets))
      × (q.events ≡ (
          if not (is_error m.error)
          then p.events ++ element_events m p
          else if is_eof m
          then p.events ++ reached_eof m.topic m.partition ∷ []
          else p.events))
unfolding process_event process_message store_offset emit
process_event-offsets k m p x = elim (Bool-cases (is_error m.error)) [
  | inl h ↦ rw h (ground arith)
  | inr h ↦
      rw (h, ← equiv-tp_lt (at_partition k m.topic m.partition) x)
        (
          find-assign tp_lt-StrictWeakOrder (at_partition k m.topic m.partition) x m.offset
              p.partition_offsets,
          refl,
        )
]
