-- ===== src/GroupInformation/RoundTrip.antt =====
-- The wire format of a member assignment, and that `parse_assignment` reads it back.
use cppkafka.Prelude.{
  ℕ, ◌+◌, ◌*◌, ◌/◌, ◌%◌, ◌^◌, ◌<◌, ◌≡◌, refl, List, [], ◌∷◌, ◌++◌, map, arith, length, ltb-false,
  length-append, append_assoc, take-append, drop-append, All,
}
use cppkafka.Prelude.Bytes.{Bytes}
use cppkafka.TopicPartition.{TopicPartition, Constants, at_partition}
use cppkafka.GroupInformation.{
  parsed, read_u16, read_u32, read_text, to_int, parse_partitions, parse_topic, parse_topics,
  parse_assignment,
}

-- One topic and its partition numbers.
pub record TopicEntry : Type 0 where
  pub topic : Bytes
  pub ids : List ℕ

abbrev pub u16 : ℕ → Bytes
u16 n = n / 256 ∷ n % 256 ∷ []

abbrev pub u32 : ℕ → Bytes
u32 n = n / 2 ^ 24 ∷ n / 2 ^ 16 % 256 ∷ n / 256 % 256 ∷ n % 256 ∷ []

abbrev pub encode_ids : List ℕ → Bytes
encode_ids [] = []
encode_ids (n ∷ ns) = u32 n ++ encode_ids ns

abbrev pub encode_entry : TopicEntry → Bytes
encode_entry e = u16 (length e.topic) ++ (e.topic ++ (u32 (length e.ids) ++ encode_ids e.ids))

abbrev pub encode_entries : List TopicEntry → Bytes
encode_entries [] = []
encode_entries (e ∷ es) = encode_entry e ++ encode_entries es

-- The Kafka member assignment: version, topics with their lengths, partition numbers, big endian.
abbrev pub encode_assignment : ℕ → List TopicEntry → Bytes
encode_assignment version es = u16 version ++ (u32 (length es) ++ encode_entries es)

-- The partitions that an assignment lists, in order.
abbrev pub partitions_of : Constants → TopicEntry → List TopicPartition
partitions_of k e = map (λ n. at_partition k e.topic (to_int n)) e.ids

abbrev pub all_partitions : Constants → List TopicEntry → List TopicPartition
all_partitions k [] = []
all_partitions k (e ∷ es) = partitions_of k e ++ all_partitions k es

-- The numbers fit their fields.
abbrev pub FitsWire : TopicEntry → Type 0
FitsWire e = (length e.topic < 2 ^ 16) × (length e.ids < 2 ^ 32) × All (λ n. n < 2 ^ 32) e.ids

read_u16-u16 : (n : ℕ) (rest : Bytes) → read_u16 (u16 n ++ rest) ≡ parsed (n, rest)
unfolding read_u16
read_u16-u16 n rest = ground arith

read_u32-u32 : (n : ℕ) (rest : Bytes) → n < 2 ^ 32 → read_u32 (u32 n ++ rest) ≡ parsed (n, rest)
unfolding read_u32
read_u32-u32 n rest h = ground arith

read_text-append : (t rest : Bytes) → read_text (length t) (t ++ rest) ≡ parsed (t, rest)
unfolding read_text
read_text-append t rest =
    rw (take-append t rest, drop-append t rest) (ground (arith, length-append t rest))

parse_partitions-encode :
    (k : Constants) (topic : Bytes) (ns : List ℕ) (rest : Bytes)
    → All (λ n. n < 2 ^ 32) ns
    → parse_partitions k topic (length ns) (encode_ids ns ++ rest)
      ≡ parsed (map (λ n. at_partition k topic (to_int n)) ns, rest)
unfolding parse_partitions
parse_partitions-encode k topic [] rest h = refl
parse_partitions-encode k topic (n ∷ ns) rest h =
    rw (read_u32-u32 n (encode_ids ns ++ rest) h.0)
      (rw (parse_partitions-encode k topic ns rest h.1) refl)

length-encode_ids : (ns : List ℕ) → length (encode_ids ns) ≡ length ns * 4
length-encode_ids [] = omega arith
length-encode_ids (n ∷ ns) = omega (arith, length-encode_ids ns)

parse_topic-encode :
    (k : Constants) (e : TopicEntry) (rest : Bytes)
    → FitsWire e
    → parse_topic k (encode_entry e ++ rest) ≡ parsed (partitions_of k e, rest)
unfolding parse_topic
parse_topic-encode k e rest h = rw (
  read_u16-u16 (length e.topic) ((e.topic ++ (u32 (length e.ids) ++ encode_ids e.ids)) ++ rest),
  append_assoc e.topic (u32 (length e.ids) ++ encode_ids e.ids) rest,
  ltb-false (length (e.topic ++ ((u32 (length e.ids) ++ encode_ids e.ids) ++ rest)) + 4)
      (length e.topic)
      (omega (arith, length-append e.topic ((u32 (length e.ids) ++ encode_ids e.ids) ++ rest))),
  read_text-append e.topic ((u32 (length e.ids) ++ encode_ids e.ids) ++ rest),
  read_u32-u32 (length e.ids) (encode_ids e.ids ++ rest) h.1,
  ltb-false (length (encode_ids e.ids ++ rest)) (length e.ids * 4)
      (omega (arith, length-append (encode_ids e.ids) rest, length-encode_ids e.ids)),
  parse_partitions-encode k e.topic e.ids rest h.2,
)

parse_topics-encode :
    (k : Constants) (es : List TopicEntry)
    → All FitsWire es
    → parse_topics k (length es) (encode_entries es) ≡ parsed (all_partitions k es)
unfolding parse_topics
parse_topics-encode k [] h = refl
parse_topics-encode k (e ∷ es) h = rw (
  ltb-false (length (encode_entries (e ∷ es))) 2 (omega arith),
  parse_topic-encode k e (encode_entries es) h.0,
  parse_topics-encode k es h.1,
)

-- Parsing the wire format of an assignment whose numbers fit their fields gives back its version
-- and its partitions, in order, each with its topic, its number and no offset.
pub parse_assignment-encode :
    (k : Constants) (version : ℕ) (es : List TopicEntry)
    → length es < 2 ^ 32
    → All FitsWire es
    → parse_assignment k (encode_assignment version es)
      ≡ parsed (record { version = version; topic_partitions = all_partitions k es })
unfolding parse_assignment
parse_assignment-encode k version es h fits = rw (
  ltb-false (length (encode_assignment version es)) 6 (omega arith),
  read_u16-u16 version (u32 (length es) ++ encode_entries es),
  read_u32-u32 (length es) (encode_entries es) h,
  parse_topics-encode k es fits,
)
