-- ===== src/TopicPartitionList.antt =====
-- Lists of partitions, to and from librdkafka's: src/topic_partition_list.cpp, and `check_error` of
-- src/kafka_handle_base.cpp on such a list.
pub mod Matches
mod Tests
use cppkafka.Prelude.{
  ℕ, ◌-◌, Bool, true, false, not, ◌&&◌, Option, none, some, List, [], ◌∷◌, ◌++◌, leb, ◌==◌, any,
  length, if◌then◌else◌,
}
use cppkafka.Prelude.Int.{ℤ, eqb_ℤ}
use cppkafka.Prelude.Bytes.{Bytes, codes}
use cppkafka.Errors.{
  RespErr, no_error, is_error, Result, ok, throw, handle_exception, check_error, ◌>>◌,
}
use cppkafka.TopicPartition
use cppkafka.TopicPartition.{TopicPartition, Constants, at_partition}

-- `rd_kafka_topic_partition_t`.
pub record Element : Type 0 where
  pub topic : Bytes
  pub partition : ℤ
  pub offset : ℤ
  pub err : RespErr

-- `convert` to a list of librdkafka, which adds elements without an error.
unfoldable pub to_handle : List TopicPartition → List Element
to_handle [] = []
to_handle (p ∷ ps) =
    record { topic = p.topic; partition = p.partition; offset = p.offset; err = no_error }
    ∷ to_handle ps

-- `convert` from a list of librdkafka.
unfoldable pub of_handle : List Element → List TopicPartition
of_handle [] = []
of_handle (e ∷ es) =
    record { topic = e.topic; partition = e.partition; offset = e.offset } ∷ of_handle es

-- `convert` of a topic and the ids of its partitions.
unfoldable pub of_metadata : Constants → Bytes → List ℤ → List TopicPartition
of_metadata k topic [] = []
of_metadata k topic (id ∷ ids) = at_partition k topic id ∷ of_metadata k topic ids

-- `toupper` of the C locale.
unfoldable pub to_upper : ℕ → ℕ
to_upper c = if leb 97 c && leb c 122 then c - 32 else c

-- `equal` of ranges of one length, up to the case of letters.
unfoldable pub equal_upper : Bytes → Bytes → Bool
equal_upper [] ys = true
equal_upper (x ∷ xs) [] = false
equal_upper (x ∷ xs) (y ∷ ys) = to_upper x == to_upper y && equal_upper xs ys

unfoldable pub same_topic : Bytes → TopicPartition → Bool
same_topic topic p = length topic == length p.topic && equal_upper topic p.topic

-- The inner loop of `find_matches`: one copy of the partition for each topic of the set that matches.
unfoldable pub copies : TopicPartition → List Bytes → List TopicPartition
copies p [] = []
copies p (topic ∷ topics) = if same_topic topic p then p ∷ copies p topics else copies p topics

-- `find_matches(partitions, topics)`; the set of topics is the list of its elements.
unfoldable pub find_topic_matches : List TopicPartition → List Bytes → List TopicPartition
find_topic_matches [] topics = []
find_topic_matches (p ∷ ps) topics = copies p topics ++ find_topic_matches ps topics

-- `find_matches(partitions, ids)`.
unfoldable pub find_id_matches : List TopicPartition → List ℤ → List TopicPartition
find_id_matches [] ids = []
find_id_matches (p ∷ ps) ids =
    if any (λ id. eqb_ℤ id p.partition) ids
    then p ∷ find_id_matches ps ids
    else find_id_matches ps ids

print_rest : Constants → List TopicPartition → Bytes
print_rest k [] = []
print_rest k (p ∷ ps) = codes ", " ++ TopicPartition.print k p ++ print_rest k ps

-- `operator<<`.
unfoldable pub print : Constants → List TopicPartition → Bytes
unfolding print_rest
print k [] = codes "[ " ++ codes " ]"
print k (p ∷ ps) = codes "[ " ++ TopicPartition.print k p ++ print_rest k ps ++ codes " ]"

unfoldable pub first_error : List Element → Result (Unit {0})
first_error [] = ok tt
first_error (e ∷ es) = if is_error e.err then throw (handle_exception e.err) else first_error es

-- `KafkaHandleBase::check_error(error, list)`.
unfoldable pub check_list : RespErr → List Element → Result (Unit {0})
unfolding first_error
check_list e es = if is_error e then throw (handle_exception e) else first_error es
