-- ===== src/HandleBase.antt =====
-- The common part of producers and consumers: src/kafka_handle_base.cpp. librdkafka is a parameter.
pub mod TopicConfigs
pub mod Pause
pub mod Construction
mod Tests
use cppkafka.Prelude.{ℕ, Bool, true, false, Option, none, some, List, [], ◌∷◌}
use cppkafka.Prelude.Int.{ℤ}
use cppkafka.Prelude.Bytes.{Bytes, codes}
use cppkafka.Prelude.OrderedMap.{OrderedMap}
use cppkafka.Errors.{
  RespErr, Result, ok, throw, handle_exception, element_not_found, check_error, then_run,
}
use cppkafka.TopicPartition.{TopicPartition, Constants}
use cppkafka.TopicPartitionList.{Element, to_handle, of_handle, of_metadata, check_list}
use cppkafka.Metadata.{RawMetadata, PartitionMetadata, TopicMetadata, to_unsigned, get_topics}
use cppkafka.GroupInformation.{GroupInfo, Group, make_group, to_int}
use cppkafka.HandleBase.TopicConfigs.{Confs, get_topic_default, get_topic_conf}

-- The calls of librdkafka. Topics and configurations are numbers, a null pointer is `none`; a call
-- that is given a list may set the elements' offsets and errors.
pub record Library : Type 1 where
  pub Env : Type 0
  pub topic_new : Bytes → Option ℕ → Env → Option ℕ × Env
  pub last_error : Env → RespErr
  pub topic_name : ℕ → Bytes
  pub metadata : Bool → Option ℕ → ℤ → Env → (RespErr × RawMetadata) × Env
  pub pause : List Element → Env → (RespErr × List Element) × Env
  pub resume : List Element → Env → (RespErr × List Element) × Env
  pub query_watermark_offsets : Bytes → ℤ → ℤ → Env → (RespErr × (ℤ × ℤ)) × Env
  pub offsets_for_times : List Element → ℤ → Env → (RespErr × List Element) × Env
  pub list_groups : Option Bytes → ℤ → Env → (RespErr × List GroupInfo) × Env

-- `static_cast<int>` of a count of milliseconds.
unfoldable pub as_int : ℤ → ℤ
unfolding to_unsigned to_int
as_int t = to_int (to_unsigned 32 t)

-- The ids of partitions as the `int` of a `TopicPartition`.
unfoldable pub ids_of : List PartitionMetadata → List ℤ
unfolding to_int
ids_of [] = []
ids_of (p ∷ ps) = to_int p.id ∷ ids_of ps

unfoldable pub make_groups : List GroupInfo → List Group
unfolding make_group
make_groups [] = []
make_groups (g ∷ gs) = make_group g ∷ make_groups gs

-- The list of the partitions that are asked for, with the times in place of the offsets.
unfoldable pub with_times : OrderedMap TopicPartition ℤ → List TopicPartition
with_times [] = []
with_times ((p, time) ∷ queries) =
    record { topic = p.topic; partition = p.partition; offset = time } ∷ with_times queries

-- An answer with an error code.
unfoldable pub answer {ℓ} : {A : Type ℓ} → RespErr × A → Result A
answer (e, a) = elim (check_error e) [ ok _ ↦ ok a | throw x ↦ throw x ]

unfoldable pub first_topic : Bytes → List TopicMetadata → Result TopicMetadata
first_topic name [] = throw (element_not_found (codes "topic metadata") name)
first_topic name (t ∷ ts) = ok t

unfoldable pub first_group : Bytes → List Group → Result Group
first_group name [] = throw (element_not_found (codes "consumer group information") name)
first_group name (g ∷ gs) = ok g

module _ (lib : Library) where
  -- The members of `KafkaHandleBase` that change: the handle, the timeout and the configurations.
  pub record Handle : Type 0 where
    pub env : lib.Env
    pub timeout : ℤ
    pub confs : Confs

  unfoldable pub set_env : lib.Env → Handle → Handle
  set_env env h = record h { env = env }

  unfoldable pub set_confs : Confs → Handle → Handle
  set_confs confs h = record h { confs = confs }

  -- `set_timeout`.
  pub set_timeout : ℤ → Handle → Handle
  set_timeout timeout h = record h { timeout = timeout }

  abbrev pub Run : Type 0 → Type 0
  Run A = Handle → Result A × Handle

  -- A call that returns an error code and an answer.
  unfoldable pub ask {ℓ} :
      {A : Type ℓ} → (lib.Env → (RespErr × A) × lib.Env) → Handle → Result A × Handle
  unfolding set_env answer
  ask f h = let (a, env) = f h.env in (answer a, set_env env h)

  -- A call that returns an error code and is given a list.
  unfoldable pub call_list : (lib.Env → (RespErr × List Element) × lib.Env) → Run (Unit {0})
  unfolding set_env
  call_list f h = let ((e, es), env) = f h.env in (check_list e es, set_env env h)

  -- `pause_partitions` and `resume_partitions`.
  unfoldable pub pause_partitions : List TopicPartition → Run (Unit {0})
  unfolding call_list
  pause_partitions ps = call_list (lib.pause (to_handle ps))

  unfoldable pub resume_partitions : List TopicPartition → Run (Unit {0})
  unfolding call_list
  resume_partitions ps = call_list (lib.resume (to_handle ps))

  unfoldable pub made_topic : Option ℕ × lib.Env → Handle → Result ℕ × Handle
  unfolding set_env
  made_topic (none, env) h = (throw (handle_exception (lib.last_error env)), set_env env h)
  made_topic (some t, env) h = (ok t, set_env env h)

  -- The private `get_topic(name, conf)`.
  unfoldable pub new_topic : Bytes → Option ℕ → Run ℕ
  unfolding made_topic
  new_topic name conf h = made_topic (lib.topic_new name conf h.env) h

  -- `get_topic(name)`.
  unfoldable pub get_topic : Bytes → Run ℕ
  unfolding new_topic set_confs
  get_topic name h = new_topic name none (set_confs (get_topic_default name h.confs) h)

  -- `get_topic(name, config)`; `none` is a read of a destroyed configuration.
  pub get_topic_with : Bytes → Handle → Option (Result ℕ × Handle)
  unfolding new_topic set_confs
  get_topic_with name h = elim (get_topic_conf name h.confs) [
    | none ↦ none
    | some (conf, confs) ↦ some (new_topic name (some conf) (set_confs confs h))
  ]

  -- The private `get_metadata(all_topics, topic, timeout)`.
  unfoldable pub get_metadata : Bool → Option ℕ → ℤ → Run RawMetadata
  unfolding ask as_int
  get_metadata all topic timeout = ask (lib.metadata all topic (as_int timeout))

  -- `get_metadata(topic, timeout)`.
  unfoldable pub get_topic_metadata : ℕ → ℤ → Run TopicMetadata
  unfolding get_metadata
  get_topic_metadata topic timeout h =
      then_run (get_metadata false (some topic) timeout h)
        (λ m h. (first_topic (lib.topic_name topic) (get_topics m), h))

  -- The metadata of a topic by its name, within the timeout of the handle.
  unfoldable pub topic_partitions : Constants → Bytes → Run (List TopicPartition)
  unfolding get_topic get_topic_metadata ids_of
  topic_partitions k name h = then_run (get_topic name h) (λ topic h.
      then_run (get_topic_metadata topic h.timeout h)
        (λ m h. (ok (of_metadata k name (ids_of m.partitions)), h)))

  -- `pause(topic)` and `resume(topic)`.
  unfoldable pub pause : Constants → Bytes → Run (Unit {0})
  unfolding topic_partitions
  pause k name h = then_run (topic_partitions k name h) pause_partitions

  unfoldable pub resume : Constants → Bytes → Run (Unit {0})
  unfolding topic_partitions
  resume k name h = then_run (topic_partitions k name h) resume_partitions

  -- `query_offsets`.
  unfoldable pub query_offsets : TopicPartition → ℤ → Run (ℤ × ℤ)
  unfolding ask as_int
  query_offsets p timeout = ask (lib.query_watermark_offsets p.topic p.partition (as_int timeout))

  unfoldable pub checked_list : RespErr × List Element → Result (List TopicPartition)
  checked_list (e, es) = elim (check_list e es) [ ok _ ↦ ok (of_handle es) | throw x ↦ throw x ]

  -- `get_offsets_for_times`.
  unfoldable pub get_offsets_for_times : OrderedMap TopicPartition ℤ → ℤ → Run (List TopicPartition)
  unfolding set_env as_int with_times checked_list
  get_offsets_for_times queries timeout h =
      let (a, env) =
        lib.offsets_for_times (to_handle (with_times queries)) (as_int timeout) h.env in
      (checked_list a, set_env env h)

  -- `fetch_consumer_groups`.
  unfoldable pub fetch_consumer_groups : Option Bytes → ℤ → Run (List Group)
  unfolding ask as_int make_groups
  fetch_consumer_groups name timeout h =
      then_run (ask (lib.list_groups name (as_int timeout)) h) (λ gs h. (ok (make_groups gs), h))

  -- `get_consumer_group`.
  unfoldable pub get_consumer_group : Bytes → ℤ → Run Group
  unfolding fetch_consumer_groups
  get_consumer_group name timeout h =
      then_run (fetch_consumer_groups (some name) timeout h) (λ gs h. (first_group name gs, h))

  -- `get_consumer_groups`.
  unfoldable pub get_consumer_groups : ℤ → Run (List Group)
  unfolding fetch_consumer_groups
  get_consumer_groups timeout = fetch_consumer_groups none timeout
