-- ===== src/HandleBase/Pause.antt =====
-- What `pause` and `resume` of a topic by its name ask librdkafka for (src/kafka_handle_base.cpp).
use cppkafka.Prelude.{ℕ, false, ◌^◌, ◌<◌, ◌≡◌, refl, none, some, List, [], ◌∷◌, arith, All}
use cppkafka.Prelude.Int.{ℤ, pos, negsuc}
use cppkafka.Prelude.Bytes.{Bytes, codes}
use cppkafka.Errors.{
  RespErr, no_error, Result, ok, throw, then_run, element_not_found, check_error, is_error,
}
use cppkafka.TopicPartition.{Constants, at_partition}
use cppkafka.TopicPartitionList.{Element, to_handle, of_metadata, check_list}
use cppkafka.Metadata.{
  RawPartition, RawTopic, RawMetadata, make_partition, make_partitions, make_topic, make_topics,
  get_topics, to_unsigned,
}
use cppkafka.GroupInformation.{to_int}
use cppkafka.HandleBase.{
  Library, Handle, as_int, ids_of, first_topic, pause, resume, topic_partitions, pause_partitions,
  resume_partitions, get_topic, get_topic_metadata, get_metadata, new_topic, made_topic, ask,
  answer, call_list, set_env, set_confs,
}
use cppkafka.HandleBase.TopicConfigs.{get_topic_default}

-- An `int` of 32 bits.
abbrev pub IsInt : ℤ → Type 0
IsInt (pos n) = n < 2 ^ 31
IsInt (negsuc n) = n < 2 ^ 31

-- An `int` is the same after the way through `uint32_t`.
to_int-to_unsigned : (z : ℤ) → IsInt z → to_int (to_unsigned 32 z) ≡ z
unfolding to_int to_unsigned
to_int-to_unsigned (pos n) h = ground arith
to_int-to_unsigned (negsuc n) h = ground arith

-- The partitions that the broker has, as librdkafka is asked for them.
unfoldable pub asked_for : Constants → Bytes → List RawPartition → List Element
asked_for k name [] = []
asked_for k name (p ∷ ps) =
    record { topic = name; partition = p.id; offset = k.offset_invalid; err = no_error }
    ∷ asked_for k name ps

to_handle-ids :
    (k : Constants) (name : Bytes) (ps : List RawPartition)
    → All (λ p. IsInt p.id) ps
    → to_handle (of_metadata k name (ids_of (make_partitions ps))) ≡ asked_for k name ps
unfolding to_handle of_metadata ids_of make_partitions make_partition asked_for at_partition
to_handle-ids k name [] h = refl
to_handle-ids k name (p ∷ ps) h = rw (to_int-to_unsigned p.id h.0, to_handle-ids k name ps h.1) refl

module _ (lib : Library) where
  -- The answer to a request for the partitions of the first topic of some metadata.
  unfoldable pub outcome :
      (List Element → lib.Env → (RespErr × List Element) × lib.Env)
      → Constants
      → Bytes
      → ℕ
      → List RawTopic
      → lib.Env
      → Result (Unit {0}) × lib.Env
  outcome f k name t [] env =
      (throw (element_not_found (codes "topic metadata") (lib.topic_name t)), env)
  outcome f k name t (r ∷ rs) env =
      let ((e, es), env') = f (asked_for k name r.partitions) env in (check_list e es, env')

  -- From the metadata on.
  call-outcome :
      (f : List Element → lib.Env → (RespErr × List Element) × lib.Env) (k : Constants)
      (name : Bytes) (t : ℕ) (rs : List RawTopic) (h : Handle lib)
      → All (λ r. All (λ p. IsInt p.id) r.partitions) rs
      → let r =
          then_run
            (then_run
              (first_topic (lib.topic_name t) (make_topics rs), h)
              (λ m h. (ok (of_metadata k name (ids_of m.partitions)), h)))
            (λ ps. call_list lib (f (to_handle ps))) in
        (r.0, r.1.env) ≡ outcome f k name t rs h.env
  unfolding outcome make_topics make_topic first_topic call_list set_env
  call-outcome f k name t [] h ids = refl
  call-outcome f k name t (r ∷ rs) h ids = rw (to_handle-ids k name r.partitions ids.0) refl

  -- Where librdkafka makes the topic and gives its metadata, pausing a topic pauses exactly the
  -- partitions of the first topic in the metadata, with the ids that the broker gave them, and has
  -- the result of that call; where the metadata has no topic it throws and pauses nothing. Resuming
  -- does the same with the other call.
  pub pause-asks :
      (k : Constants) (name : Bytes) (h : Handle lib) (t : ℕ) (m : RawMetadata)
      (env₁ env₂ : lib.Env)
      → lib.topic_new name none h.env ≡ (some t, env₁)
      → lib.metadata false (some t) (as_int h.timeout) env₁ ≡ ((no_error, m), env₂)
      → All (λ r. All (λ p. IsInt p.id) r.partitions) m.topics
      → (((pause lib k name h).0, (pause lib k name h).1.env)
          ≡ outcome lib.pause k name t m.topics env₂)
        × (((resume lib k name h).0, (resume lib k name h).1.env)
            ≡ outcome lib.resume k name t m.topics env₂)
  unfolding pause resume topic_partitions get_topic get_topic_metadata get_metadata new_topic
      made_topic ask answer pause_partitions resume_partitions call_list set_env set_confs
      check_error is_error get_topics
  pause-asks k name h t m env₁ env₂ made asked ids =
      let after = record h { env = env₂; confs = get_topic_default name h.confs } in
      rw (made, asked)
        (
          call-outcome lib.pause k name t m.topics after ids,
          call-outcome lib.resume k name t m.topics after ids,
        )
