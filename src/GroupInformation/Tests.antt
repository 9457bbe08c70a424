-- ===== src/GroupInformation/Tests.antt =====
-- Runs of the assignment parser, and its theorems at concrete inputs.
use cppkafka.Prelude.{ℕ, ◌+◌, ◌≡◌, ◌≤◌, ◌<◌, ◌↔◌, refl, [], ◌∷◌, arith, length}
use cppkafka.Prelude.Int.{pos, negsuc}
use cppkafka.Prelude.Bytes.{codes}
use cppkafka.TopicPartition.{Constants, at_partition}
use cppkafka.GroupInformation.{
  parsed, out_of_bounds, parse_assignment, parse_topics, parse_topic, parse_partitions, read_u16,
  read_u32, read_text, to_int,
}
use cppkafka.GroupInformation.RoundTrip.{
  TopicEntry, encode_assignment, all_partitions, parse_assignment-encode,
}
use cppkafka.GroupInformation.Bounds.{parse_assignment_overruns}

abbrev constants : Constants
constants = record { partition_ua = negsuc 0; offset_invalid = negsuc 1000 }

abbrev entry : TopicEntry
entry = record { topic = codes "ab"; ids = 3 ∷ 2147483648 ∷ [] }

parse_runs :
    parse_assignment constants (encode_assignment 2 (entry ∷ []))
    ≡ parsed (record {
      version = 2;
      topic_partitions =
          at_partition constants (codes "ab") (pos 3)
          ∷ at_partition constants (codes "ab") (negsuc 2147483647)
          ∷ [];
    })
unfolding parse_assignment parse_topics parse_topic parse_partitions read_u16 read_u32 read_text
    to_int
parse_runs = refl

parse_assignment-encode_example :
    parse_assignment constants (encode_assignment 2 (entry ∷ []))
    ≡ parsed (record { version = 2; topic_partitions = all_partitions constants (entry ∷ []) })
parse_assignment-encode_example =
    parse_assignment-encode constants 2 (entry ∷ []) (omega arith) (omega arith)

-- A vector that ends inside the topic's name.
parse_assignment_overruns_example :
    (parse_assignment constants (0 ∷ 0 ∷ 0 ∷ 0 ∷ 0 ∷ 1 ∷ 0 ∷ 3 ∷ 97 ∷ []) ≡ out_of_bounds)
    ↔ ((3 ≤ length {A = ℕ} (97 ∷ []) + 4) × (length {A = ℕ} (97 ∷ []) < 3 + 4))
parse_assignment_overruns_example = parse_assignment_overruns constants 0 0 0 3 (97 ∷ [])
