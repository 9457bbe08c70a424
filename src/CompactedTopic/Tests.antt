-- ===== src/CompactedTopic/Tests.antt =====
-- The theorems on the processor of compacted topics at a concrete message and assignment.
use cppkafka.Prelude.{◌≡◌, refl, true, false, none, some, List, [], ◌∷◌}
use cppkafka.Prelude.Int.{pos, negsuc}
use cppkafka.Prelude.Bytes.{Bytes, codes, bytes_eq}
use cppkafka.Errors.{no_error, is_error, resp_eq}
use cppkafka.Message.{Message}
use cppkafka.TopicPartition.{TopicPartition, Constants, at_partition, tp_eq}
use cppkafka.CompactedTopic.View.{view, no_elements}
use cppkafka.CompactedTopic.Log.{Delivery, polled, assigned, run, replay}
use cppkafka.CompactedTopic.Refinement.{run_refines}
use cppkafka.CompactedTopic.{Processor, process_event, on_assignment}
use cppkafka.Prelude.{map}
use cppkafka.Prelude.OrderedMap.{find}
use cppkafka.CompactedTopic.{or_unchanged}
use cppkafka.CompactedTopic.Resume.{last_read, resume, on_assignment-resumes}

abbrev constants : Constants
constants = record { partition_ua = negsuc 0; offset_invalid = negsuc 1000 }

-- Keys and values are the bytes themselves.
abbrev processor : Processor Bytes Bytes
processor = record {
  key_decoder = λ k. some k;
  value_decoder = λ k v. some v;
  has_error_handler = false;
  original_assignment_callback = none;
  partition_offsets = [];
  events = [];
  failures = [];
}

abbrev message : Message
message = record {
  error = no_error;
  topic = codes "test";
  partition = pos 2;
  payload = codes "v";
  key = codes "k";
  headers = none;
  offset = pos 41;
  timestamp = none;
  user_data = 0;
  internal = none;
}

abbrev place : TopicPartition
place = at_partition constants (codes "test") (pos 2)

abbrev loaded : Processor Bytes Bytes
loaded = process_event constants (some message) processor

fine : is_error message.error ≡ false
unfolding is_error resp_eq
fine = refl

same_place : tp_eq (at_partition constants message.topic message.partition) place ≡ true
unfolding tp_eq bytes_eq at_partition
same_place = refl

-- The partition is read, taken away and given back.
abbrev deliveries : List Delivery
deliveries = polled (some message) ∷ assigned [] ∷ assigned (place ∷ []) ∷ polled none ∷ []

run_refines_example :
    view constants bytes_eq (run constants deliveries processor).events no_elements
    ≡ replay processor.key_decoder processor.value_decoder processor.original_assignment_callback
        constants bytes_eq deliveries no_elements
run_refines_example = run_refines constants bytes_eq deliveries processor refl refl

on_assignment-resumes_example :
    (on_assignment (place ∷ []) (run constants (polled (some message) ∷ []) processor)).0
    ≡ map
        (λ x.
          resume none constants (last_read none constants x (polled (some message) ∷ []) none) x)
        (or_unchanged none (place ∷ []))
unfolding find
on_assignment-resumes_example =
    on_assignment-resumes none constants (polled (some message) ∷ []) processor (place ∷ []) refl
