-- ===== src/CompactedTopic/Assignment.antt =====
-- What an assignment does to the offsets and to the cache of `CompactedTopicProcessor`
-- (include/cppkafka/utils/compacted_topic_processor.h).
use cppkafka.Prelude.{
  ◌≡◌, refl, true, none, some, List, [], ◌∷◌, arith, if◌then◌else◌, length, length-append, ◌+◌,
}
use cppkafka.Prelude.Int.{ℤ}
use cppkafka.Prelude.Order.{equiv, StrictWeakOrder}
use cppkafka.Prelude.OrderedMap.{OrderedMap, find}
use cppkafka.Message.{Message}
use cppkafka.TopicPartition.{TopicPartition, Constants, tp_lt, set_offset}
use cppkafka.TopicPartition.Order.{tp_lt-StrictWeakOrder}
use cppkafka.CompactedTopic.{
  Processor, restore_offset, found, still_assigned, clear_events, on_assignment, process_event,
  process_message, store_offset, emit,
}

-- Two names of one partition are both in an assignment or both not.
pub found-equiv :
    (ps : List TopicPartition) (x y : TopicPartition)
    → equiv tp_lt x y ≡ true
    → found ps x ≡ found ps y
unfolding found
found-equiv [] x y h = refl
found-equiv (q ∷ ps) x y h =
    let o : StrictWeakOrder tp_lt = tp_lt-StrictWeakOrder in
    ground (arith, found-equiv ps x y h, o.equiv_trans q x y, o.equiv_trans q y x)

pub find-still_assigned :
    (ps : List TopicPartition) (x : TopicPartition) (m : OrderedMap TopicPartition ℤ)
    → find tp_lt x (still_assigned ps m) ≡ (if found ps x then find tp_lt x m else none)
unfolding find still_assigned
find-still_assigned ps x [] = ground arith
find-still_assigned ps x ((p, offset) ∷ m) =
    ground (arith, find-still_assigned ps x m, found-equiv ps p x)

-- Each entry of the cache either stays or is announced as cleared.
kept-cleared :
    (Key Value : Type 0) (ps : List TopicPartition) (m : OrderedMap TopicPartition ℤ)
    → length (still_assigned ps m) + length (clear_events {Key = Key} {Value = Value} ps m)
      ≡ length m
unfolding still_assigned clear_events
kept-cleared Key Value ps [] = refl
kept-cleared Key Value ps ((p, offset) ∷ m) = ground (arith, kept-cleared Key Value ps m)

-- After an assignment the cache knows exactly the offsets that it knew of the partitions in the
-- assignment, and it hands out one event for every entry that it gave up.
pub on_assignment-cache :
    {Key Value : Type 0} (partitions : List TopicPartition) (p : Processor Key Value)
    (x : TopicPartition)
    → let (ps, q) = on_assignment partitions p in
      (find tp_lt x q.partition_offsets
        ≡ (if found ps x then find tp_lt x p.partition_offsets else none))
      × (length q.partition_offsets + length q.events
          ≡ length p.partition_offsets + length p.events)
unfolding on_assignment
on_assignment-cache {Key = Key} {Value = Value} partitions p x =
    let ps = (on_assignment partitions p).0 in
    (
      find-still_assigned ps x p.partition_offsets,
      omega (
        arith,
        kept-cleared Key Value ps p.partition_offsets,
        length-append p.events (clear_events ps p.partition_offsets),
      ),
    )

restore-known :
    (offsets : OrderedMap TopicPartition ℤ) (x : TopicPartition) (offset : ℤ)
    → find tp_lt x offsets ≡ some offset
    → restore_offset offsets x ≡ set_offset offset x
unfolding restore_offset
restore-known offsets x offset h = rw (h, restore_offset) refl

pub process_event-callback :
    {Key Value : Type 0} (k : Constants) (m : Message) (p : Processor Key Value)
    → (process_event k (some m) p).original_assignment_callback ≡ p.original_assignment_callback
unfolding process_event process_message store_offset emit
process_event-callback k m p = ground arith

pub process_event-key :
    {Key Value : Type 0} (k : Constants) (m : Message) (p : Processor Key Value)
    → (process_event k (some m) p).key_decoder ≡ p.key_decoder
unfolding process_event process_message store_offset emit
process_event-key k m p = ground arith

pub process_event-value :
    {Key Value : Type 0} (k : Constants) (m : Message) (p : Processor Key Value)
    → (process_event k (some m) p).value_decoder ≡ p.value_decoder
unfolding process_event process_message store_offset emit
process_event-value k m p = ground arith
