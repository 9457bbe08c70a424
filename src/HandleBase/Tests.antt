-- ===== src/HandleBase/Tests.antt =====
-- The theorems on handles at a concrete library and concrete topics.
use cppkafka.Prelude.{ℕ, suc, ◌≡◌, none, some, List, [], ◌∷◌, if◌then◌else◌, is_some}
use cppkafka.Prelude.Int.{pos, negsuc}
use cppkafka.Prelude.Bytes.{codes, bytes_lt}
use cppkafka.Prelude.OrderedMap.{find}
use cppkafka.Errors.{no_error}
use cppkafka.TopicPartition.{Constants}
use cppkafka.Metadata.{RawMetadata}
use cppkafka.HandleBase.{Library, Handle}
use cppkafka.HandleBase.TopicConfigs.{
  Confs, Request, get_topic_default, by_name, by_config, ask_all, get_topic_conf, given_opaque,
  is_live,
}
use cppkafka.HandleBase.TopicConfigs.Lifetime.{
  Answered, permitted, known, ask_all-IsValid, get_topic_conf-dangles,
}
use cppkafka.HandleBase.TopicConfigs.Validity.{IsValid}

abbrev constants : Constants
constants = record { partition_ua = negsuc 0; offset_invalid = negsuc 1000 }

abbrev metadata : RawMetadata
metadata = record {
  brokers = [];
  topics =
      record {
        topic = codes "orders";
        err = no_error;
        partitions =
            record { id = pos 7; err = no_error; leader = pos 1; replicas = []; isrs = [] } ∷ [];
      }
      ∷ [];
}

-- A library that knows one topic, and whose calls succeed and count.
abbrev library : Library
library = record {
  Env = ℕ;
  topic_new = λ name conf env. (some 4, suc env);
  last_error = λ env. no_error;
  topic_name = λ t. codes "orders";
  metadata = λ all topic timeout env. ((no_error, metadata), suc env);
  pause = λ es env. ((no_error, es), suc env);
  resume = λ es env. ((no_error, es), suc env);
  query_watermark_offsets = λ topic partition timeout env. ((no_error, (pos 0, pos 9)), suc env);
  offsets_for_times = λ es timeout env. ((no_error, es), suc env);
  list_groups = λ name timeout env. ((no_error, []), suc env);
}

abbrev no_confs : Confs
no_confs = record { live = []; next = 0; opaque = λ j. none; saved = [] }

abbrev handle : Handle library
handle = record { env = 0; timeout = pos 1000; confs = no_confs }

no_confs-IsValid : IsValid no_confs
unfolding find is_live
no_confs-IsValid = record {
  saved_live = λ name h e. cc;
  saved_opaque = λ name h e. cc;
  opaque_saved = λ name h l o. cc;
  live_old = λ h l. cc;
}

-- Two topics with configurations, and the first again by its name.
abbrev requests : List Request
requests = by_config (codes "orders") ∷ by_config (codes "logs") ∷ by_name (codes "orders") ∷ []

ask_all-IsValid_example : Answered (permitted requests (known no_confs)) (ask_all requests no_confs)
ask_all-IsValid_example = ask_all-IsValid requests no_confs no_confs-IsValid

-- The handle knows one topic.
abbrev later : Confs
later = get_topic_default (codes "orders") no_confs

get_topic_conf-dangles_example : given_opaque (get_topic_conf (codes "orders") later) ≡ (
    if is_some (find bytes_lt (codes "orders") later.saved)
    then none
    else some (some (codes "orders")))
get_topic_conf-dangles_example = get_topic_conf-dangles (codes "orders") later
