-- ===== src/Metadata/Tests.antt =====
-- The filters of metadata at concrete topics.
use cppkafka.Prelude.{◌≡◌, refl, [], ◌∷◌}
use cppkafka.Prelude.Bytes.{codes}
use cppkafka.Errors.{no_error}
use cppkafka.Metadata.{
  RawMetadata, get_topics_prefixed, topics_prefixed, is_zero, find_from, starts_with, make_topic,
  make_partitions,
}

abbrev metadata : RawMetadata
metadata = record {
  brokers = [];
  topics =
      record { topic = codes "orders"; err = no_error; partitions = [] }
      ∷ record { topic = codes "re-orders"; err = no_error; partitions = [] }
      ∷ [];
}

prefixed :
    get_topics_prefixed (codes "order") metadata
    ≡ record { name = codes "orders"; error = no_error; partitions = [] } ∷ []
unfolding get_topics_prefixed topics_prefixed is_zero find_from starts_with make_topic
    make_partitions
prefixed = refl
