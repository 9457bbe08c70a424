-- ===== src/TopicPartitionList/Tests.antt =====
-- The theorems on lists of partitions at concrete lists.
use cppkafka.Prelude.{◌≡◌, ◌&&◌, refl, true, List, [], ◌∷◌, any}
use cppkafka.Prelude.Int.{pos, negsuc, eqb_ℤ}
use cppkafka.Prelude.Bytes.{Bytes, codes}
use cppkafka.Errors.{no_error, other, throw, handle_exception, is_error}
use cppkafka.TopicPartition.{TopicPartition, tp_eq}
use cppkafka.TopicPartitionList.{
  Element, to_handle, of_handle, same_topic, equal_upper, to_upper, find_topic_matches,
  find_id_matches, check_list, first_error,
}
use cppkafka.TopicPartitionList.Matches.{same_name, find_matches-finds}

abbrev first : TopicPartition
first = record { topic = codes "Test"; partition = pos 0; offset = pos 7 }

abbrev partitions : List TopicPartition
partitions = first ∷ record { topic = codes "other"; partition = pos 1; offset = negsuc 1000 } ∷ []

abbrev topics : List Bytes
topics = codes "tesT" ∷ []

same_topic_runs : same_topic (codes "tesT") first ≡ true
unfolding same_topic equal_upper to_upper
same_topic_runs = refl

find_matches-finds_example :
    (any (tp_eq first) (find_topic_matches partitions topics)
      ≡ any (λ p. tp_eq first p && any (λ t. same_name t p.topic) topics) partitions)
    × (any (tp_eq first) (find_id_matches partitions (pos 1 ∷ []))
        ≡ any (λ p. tp_eq first p && any (λ id. eqb_ℤ id p.partition) (pos 1 ∷ [])) partitions)
find_matches-finds_example = find_matches-finds (tp_eq first) partitions topics (pos 1 ∷ [])

round_trip : of_handle (to_handle partitions) ≡ partitions
unfolding of_handle to_handle
round_trip = refl

abbrev broken : List Element
broken = record { topic = codes "Test"; partition = pos 0; offset = pos 7; err = other 3 } ∷ []

broken_throws : check_list no_error broken ≡ throw (handle_exception (other 3))
unfolding check_list first_error is_error
broken_throws = refl
