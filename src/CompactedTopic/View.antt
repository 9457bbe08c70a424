-- ===== src/CompactedTopic/View.antt =====
-- The table that an application keeps from the events of `CompactedTopicProcessor`
-- (include/cppkafka/utils/compacted_topic_processor.h).
use cppkafka.Prelude.{
  ◌≡◌, refl, Bool, not, ◌&&◌, Option, none, some, List, [], ◌∷◌, ◌++◌, arith, if◌then◌else◌, inl,
  inr, Option-cases, is_some,
}
use cppkafka.Prelude.Int.{ℤ}
use cppkafka.Prelude.Order.{equiv}
use cppkafka.Prelude.OrderedMap.{OrderedMap, find}
use cppkafka.TopicPartition.{TopicPartition, Constants, at_partition, tp_lt, tp_eq, set_offset}
use cppkafka.TopicPartition.Order.{equiv-tp_lt}
use cppkafka.CompactedTopic.{
  Event, set_element, delete_element, clear_elements, reached_eof, found, clear_events, restore,
  restore_offset,
}
use cppkafka.CompactedTopic.Assignment.{found-equiv}

-- A value, at most, for each key of each partition.
abbrev pub Table : Type 0 → Type 0 → Type 0
Table Key Value = TopicPartition → Key → Option Value

unfoldable pub no_elements : {Key Value : Type 0} → Table Key Value
no_elements = λ place key. none

module _ {Key Value : Type 0} (c : Constants) (same : Key → Key → Bool) where
  -- What an application does with an event.
  unfoldable pub on_event : Event Key Value → Table Key Value → TopicPartition → Key → Option Value
  on_event (set_element t x k v) table place key =
      if tp_eq (at_partition c t x) place && same k key then some v else table place key
  on_event (delete_element t x k) table place key =
      if tp_eq (at_partition c t x) place && same k key then none else table place key
  on_event (clear_elements t x) table place key =
      if tp_eq (at_partition c t x) place then none else table place key
  on_event (reached_eof t x) table place key = table place key

  unfoldable pub view : List (Event Key Value) → Table Key Value → Table Key Value
  view [] table = table
  view (e ∷ es) table = view es (on_event e table)

  pub view-append :
      (es fs : List (Event Key Value)) (table : Table Key Value)
      → view (es ++ fs) table ≡ view fs (view es table)
  unfolding view
  view-append [] fs table = refl
  view-append (e ∷ es) fs table = view-append es fs (on_event e table)

  on_event-clear :
      (p : TopicPartition) (table : Table Key Value) (place : TopicPartition) (key : Key)
      → on_event (clear_elements p.topic p.partition) table place key
        ≡ (if equiv tp_lt p place then none else table place key)
  unfolding on_event tp_eq at_partition
  on_event-clear p table place key = rw (equiv-tp_lt p place, tp_eq) refl

  -- The cleared partitions are the ones that the cache knows and the assignment does not have.
  pub view-clear_events :
      (ps : List TopicPartition) (m : OrderedMap TopicPartition ℤ) (table : Table Key Value)
      (place : TopicPartition) (key : Key)
      → view (clear_events ps m) table place key
        ≡ (if not (found ps place) && is_some (find tp_lt place m) then none else table place key)
  unfolding view clear_events find
  view-clear_events ps [] table place key = ground arith
  view-clear_events ps ((p, offset) ∷ m) table place key =
      let cleared = on_event (clear_elements p.topic p.partition) table in
      ground (
        arith,
        found-equiv ps p place,
        on_event-clear p table place key,
        view-clear_events ps m table place key,
        view-clear_events ps m cleared place key,
      )

equiv-restore_offset :
    (offsets : OrderedMap TopicPartition ℤ) (p place : TopicPartition)
    → equiv tp_lt (restore_offset offsets p) place ≡ equiv tp_lt p place
unfolding restore_offset set_offset tp_lt
equiv-restore_offset offsets p place = elim (Option-cases (find tp_lt p offsets)) [
  | inl h ↦ rw (h, restore_offset) refl
  | inr (offset, h) ↦ rw (h, restore_offset) refl
]

-- An assignment has the same partitions after the offsets are restored.
pub found-restore :
    (offsets : OrderedMap TopicPartition ℤ) (ps : List TopicPartition) (place : TopicPartition)
    → found (restore offsets ps) place ≡ found ps place
unfolding found restore
found-restore offsets [] place = refl
found-restore offsets (p ∷ ps) place =
    ground (arith, equiv-restore_offset offsets p place, found-restore offsets ps place)
