-- ===== src/CompactedTopic/Refinement.antt =====
-- The events of `CompactedTopicProcessor` against the log that its consumer reads
-- (include/cppkafka/utils/compacted_topic_processor.h).
use mathlib.Core.Path.{fun_ext}
use cppkafka.Prelude.{
  ◌≡◌, ◌∙◌, refl, ap, Bool, Option, none, some, List, [], ◌∷◌, ◌++◌, arith, if◌then◌else◌,
  Bool-cases, inl, inr,
}
use cppkafka.Prelude.Bytes.{Bytes}
use cppkafka.Prelude.OrderedMap.{find}
use cppkafka.Errors.{is_error}
use cppkafka.Message.{Message, is_eof}
use cppkafka.TopicPartition.{TopicPartition, Constants, tp_lt}
use cppkafka.CompactedTopic.{
  reached_eof, Processor, element_events, key_event, set_event, process_event, on_assignment,
  or_unchanged, found, clear_events,
}
use cppkafka.CompactedTopic.Offsets.{process_event-offsets}
use cppkafka.CompactedTopic.Assignment.{
  process_event-callback, process_event-key, process_event-value, find-still_assigned,
}
use cppkafka.CompactedTopic.View.{
  Table, no_elements, on_event, view, view-append, view-clear_events, found-restore,
}
use cppkafka.CompactedTopic.Log.{
  Delivery, polled, assigned, deliver, run, write_value, write_key, on_delivery, replay,
  write_key-elsewhere,
}

module _ {Key Value : Type 0} (key_decoder : Bytes → Option Key)
    (value_decoder : Key → Bytes → Option Value)
    (callback : Option (List TopicPartition → List TopicPartition)) (c : Constants)
    (same : Key → Key → Bool) where
  -- A processor whose events describe a table, of the partitions in its cache alone.
  record Describes (p : Processor Key Value) (table : Table Key Value) : Type 0 where
    pub key : p.key_decoder ≡ key_decoder
    pub value : p.value_decoder ≡ value_decoder
    pub assignment : p.original_assignment_callback ≡ callback
    pub shows : view c same p.events no_elements ≡ table
    pub backed :
        (place : TopicPartition) (k : Key)
        → find tp_lt place p.partition_offsets ≡ none
        → table place k ≡ none

  view-set_event :
      (m : Message) (k : Key) (o : Option Value) (table : Table Key Value) (place : TopicPartition)
      (key : Key)
      → view c same (set_event m k o) table place key
        ≡ write_value key_decoder value_decoder callback c same m k o table place key
  unfolding view set_event write_value on_event
  view-set_event m k none table place key = refl
  view-set_event m k (some v) table place key = refl

  -- The events of a message make the change that the message stands for.
  view-key_event :
      (m : Message) (o : Option Key) (table : Table Key Value) (place : TopicPartition) (key : Key)
      → view c same (key_event value_decoder m o) table place key
        ≡ write_key key_decoder value_decoder callback c same m o table place key
  unfolding view key_event write_key on_event
  view-key_event m none table place key = refl
  view-key_event m (some k) table place key =
      ground (arith, view-set_event m k (value_decoder k m.payload) table place key)

  view-elements :
      (m : Message) (p : Processor Key Value) (table : Table Key Value) (place : TopicPartition)
      (key : Key)
      → p.key_decoder ≡ key_decoder
      → p.value_decoder ≡ value_decoder
      → view c same (p.events ++ element_events m p) table place key
        ≡ write_key key_decoder value_decoder callback c same m
            (key_decoder m.key)
            (view c same p.events table)
            place
            key
  unfolding element_events
  view-elements m p table place key hk hv =
      rw (view-append c same p.events (element_events m p) table, hk, hv)
        (view-key_event m (key_decoder m.key) (view c same p.events table) place key)

  view-eof :
      (m : Message) (p : Processor Key Value) (table : Table Key Value) (place : TopicPartition)
      (key : Key)
      → view c same
          (if is_eof m then p.events ++ reached_eof m.topic m.partition ∷ [] else p.events)
          table
          place
          key
        ≡ view c same p.events table place key
  unfolding view on_event
  view-eof m p table place key = elim (Bool-cases (is_eof m)) [
    | inl h ↦ rw (h, view-append c same p.events (reached_eof m.topic m.partition ∷ []) table) refl
    | inr h ↦ rw h refl
  ]

  view-polled :
      (m : Message) (p : Processor Key Value) (table : Table Key Value) (place : TopicPartition)
      (key : Key)
      → p.key_decoder ≡ key_decoder
      → p.value_decoder ≡ value_decoder
      → view c same (process_event c (some m) p).events table place key
        ≡ on_delivery key_decoder value_decoder callback c same
            (polled (some m))
            (view c same p.events table)
            place
            key
  unfolding on_delivery
  view-polled m p table place key hk hv = elim (Bool-cases (is_error m.error)) [
    | inl h ↦ rw ((process_event-offsets c m p place).1, h) (view-eof m p table place key)
    | inr h ↦
        rw ((process_event-offsets c m p place).1, h) (view-elements m p table place key hk hv)
  ]

  backed-polled :
      (m : Message) (p : Processor Key Value) (table : Table Key Value) (place : TopicPartition)
      (key : Key)
      → (find tp_lt place p.partition_offsets ≡ none → table place key ≡ none)
      → find tp_lt place (process_event c (some m) p).partition_offsets ≡ none
      → on_delivery key_decoder value_decoder callback c same (polled (some m)) table place key
        ≡ none
  unfolding on_delivery
  backed-polled m p table place key h = rw (process_event-offsets c m p place).0 (
      ground (
        arith,
        write_key-elsewhere key_decoder value_decoder callback c same m (key_decoder m.key) table
            place key,
      ))

  -- Two names of the partitions of an assignment: as given, and as the handler leaves it.
  found-restored :
      (ps : List TopicPartition) (p : Processor Key Value) (place : TopicPartition)
      → p.original_assignment_callback ≡ callback
      → found (on_assignment ps p).0 place ≡ found (or_unchanged callback ps) place
  unfolding on_assignment
  found-restored ps p place h = rw (← h) (found-restore p.partition_offsets _ place)

  view-assigned :
      (ps : List TopicPartition) (p : Processor Key Value) (table : Table Key Value)
      (place : TopicPartition) (key : Key)
      → Describes p table
      → view c same (on_assignment ps p).1.events no_elements place key
        ≡ on_delivery key_decoder value_decoder callback c same (assigned ps) table place key
  unfolding on_delivery on_assignment
  view-assigned ps p table place key h =
      let restored = (on_assignment ps p).0 in
      ground (
        arith,
        ap (λ t. t place key)
            (view-append c same p.events (clear_events restored p.partition_offsets) no_elements),
        view-clear_events c same restored p.partition_offsets (view c same p.events no_elements)
            place key,
        found-restored ps p place h.assignment,
        ap (λ t. t place key) h.shows,
        h.backed place key,
      )

  backed-assigned :
      (ps : List TopicPartition) (p : Processor Key Value) (table : Table Key Value)
      (place : TopicPartition) (key : Key)
      → Describes p table
      → find tp_lt place (on_assignment ps p).1.partition_offsets ≡ none
      → on_delivery key_decoder value_decoder callback c same (assigned ps) table place key ≡ none
  unfolding on_delivery on_assignment
  backed-assigned ps p table place key h =
      let restored = (on_assignment ps p).0 in
      ground (
        arith,
        find-still_assigned restored place p.partition_offsets,
        found-restored ps p place h.assignment,
        h.backed place key,
      )

  deliver-Describes :
      (d : Delivery) (p : Processor Key Value) (table : Table Key Value)
      → Describes p table
      → Describes (deliver c d p) (on_delivery key_decoder value_decoder callback c same d table)
  unfolding deliver on_delivery process_event on_assignment
  deliver-Describes (polled none) p table h = h
  deliver-Describes (polled (some m)) p table h = record {
    key = process_event-key c m p ∙ h.key;
    value = process_event-value c m p ∙ h.value;
    assignment = process_event-callback c m p ∙ h.assignment;
    shows = fun_ext λ place.
        fun_ext λ key. rw (← h.shows) (view-polled m p no_elements place key h.key h.value);
    backed = λ place key. backed-polled m p table place key (h.backed place key);
  }
  deliver-Describes (assigned ps) p table h = record {
    key = h.key;
    value = h.value;
    assignment = h.assignment;
    shows = fun_ext λ place. fun_ext λ key. view-assigned ps p table place key h;
    backed = λ place key. backed-assigned ps p table place key h;
  }

  run-Describes :
      (ds : List Delivery) (p : Processor Key Value) (table : Table Key Value)
      → Describes p table
      → Describes (run c ds p) (replay key_decoder value_decoder callback c same ds table)
  unfolding run replay
  run-Describes [] p table h = h
  run-Describes (d ∷ ds) p table h =
      run-Describes ds (deliver c d p)
        (on_delivery key_decoder value_decoder callback c same d table)
        (deliver-Describes d p table h)

-- From a processor without events and offsets, and after any polls and assignments, the table that
-- an application keeps from the events is the table of the log: each message without an error writes
-- or deletes its element, and an assignment drops the elements of every partition that it does not
-- have.
pub run_refines :
    {Key Value : Type 0} (c : Constants) (same : Key → Key → Bool) (ds : List Delivery)
    (p : Processor Key Value)
    → p.partition_offsets ≡ []
    → p.events ≡ []
    → view c same (run c ds p).events no_elements
      ≡ replay p.key_decoder p.value_decoder p.original_assignment_callback c same ds no_elements
unfolding view no_elements find
run_refines c same ds p ho he =
    let described =
      run-Describes p.key_decoder p.value_decoder p.original_assignment_callback c same ds p
        no_elements
        (record {
          key = refl;
          value = refl;
          assignment = refl;
          shows = rw he refl;
          backed = λ place key h. refl;
        }) in
    described.shows
