-- ===== src/HandleBase/Construction.antt =====
-- How a producer or a consumer comes to be and goes: the constructors of src/kafka_handle_base.cpp,
-- src/producer.cpp and src/consumer.cpp, and the destructor of the base. librdkafka is a parameter.
pub mod Leak
mod Tests
use cppkafka.Prelude.{ℕ, Option, none, some, ◌++◌, is_some}
use cppkafka.Prelude.Int.{ℤ, pos}
use cppkafka.Prelude.Bytes.{Bytes, codes}
use cppkafka.Errors.{Result, ok, throw, exception}

pub data Kind : Type 0 where
  producer consumer : Kind

-- The calls of librdkafka on configurations, topic configurations and handles, which are numbers, as
-- are the objects that opaque pointers point to; a handle that is not created is `none`, with the
-- error text.
pub record Rdkafka : Type 1 where
  pub Env : Type 0
  pub topic_conf_set_opaque : ℕ → ℕ → Env → Env
  pub topic_conf_dup : ℕ → Env → ℕ × Env
  pub topic_conf_destroy : ℕ → Env → Env
  pub conf_set_default_topic_conf : ℕ → ℕ → Env → Env
  pub conf_set_opaque : ℕ → ℕ → Env → Env
  pub conf_set_rebalance_cb : ℕ → Env → Env
  pub conf_dup : ℕ → Env → ℕ × Env
  pub conf_destroy : ℕ → Env → Env
  pub kafka_new : Kind → ℕ → Env → (Option ℕ × Bytes) × Env
  pub poll_set_consumer : ℕ → Env → Env
  pub destroy_flags : ℕ → ℤ → Env → Env

-- The members of `KafkaHandleBase`, `this` being the address of the object, and that of the default
-- topic configuration with its handle.
pub record Base : Type 0 where
  pub this : ℕ
  pub timeout_ms : ℤ
  pub config : ℕ
  pub default_topic_config : Option (ℕ × ℕ)
  pub handle : Option ℕ
  pub flags : ℤ

-- `DEFAULT_TIMEOUT`.
abbrev pub default_timeout : ℤ
default_timeout = pos 1000

-- `set_destroy_flags`.
unfoldable pub set_destroy_flags : ℤ → Base → Base
set_destroy_flags flags b = record b { flags = flags }

module _ (rd : Rdkafka) where
  -- The default topic configuration of a configuration: a copy with the opaque pointer.
  unfoldable pub set_default : Base → rd.Env → rd.Env
  set_default b env = elim b.default_topic_config [
    | none ↦ env
    | some (address, topic_conf) ↦
        let (copy, env₁) =
          rd.topic_conf_dup topic_conf (rd.topic_conf_set_opaque topic_conf address env) in
        rd.conf_set_default_topic_conf b.config copy env₁
  ]

  -- KafkaHandleBase(config).
  unfoldable pub construct_base : ℕ → ℕ → Option (ℕ × ℕ) → rd.Env → Base × rd.Env
  unfolding set_default
  construct_base this config default env =
      let b : Base = record {
        this = this;
        timeout_ms = default_timeout;
        config = config;
        default_topic_config = default;
        handle = none;
        flags = pos 0;
      } in
      (b, set_default b env)

  unfoldable pub prepare : Kind → Base → rd.Env → rd.Env
  prepare producer b env = rd.conf_set_opaque b.config b.this env
  prepare consumer b env =
      rd.conf_set_rebalance_cb b.config (rd.conf_set_opaque b.config b.this env)

  unfoldable pub start_polling : Kind → ℕ → rd.Env → rd.Env
  start_polling producer h env = env
  start_polling consumer h env = rd.poll_set_consumer h env

  abbrev pub failure : Kind → Bytes
  failure producer = codes "Failed to create producer handle: "
  failure consumer = codes "Failed to create consumer handle: "

  unfoldable pub destroy_default : Base → rd.Env → rd.Env
  destroy_default b env = elim b.default_topic_config [
    | none ↦ env
    | some (address, topic_conf) ↦ rd.topic_conf_destroy topic_conf env
  ]

  unfoldable pub destroy_handle : Base → rd.Env → rd.Env
  destroy_handle b env = elim b.handle [ none ↦ env | some h ↦ rd.destroy_flags h b.flags env ]

  -- The destructor of `KafkaHandleBase`: the handle goes before the configuration, in which the
  -- default topic configuration goes first.
  unfoldable pub destroy_base : Base → rd.Env → rd.Env
  unfolding destroy_handle destroy_default
  destroy_base b env = rd.conf_destroy b.config (destroy_default b (destroy_handle b env))

  -- What follows `rd_kafka_new`: where it fails the constructor throws, and the base is destroyed.
  unfoldable pub created : Kind → Base → (Option ℕ × Bytes) × rd.Env → Result Base × rd.Env
  unfolding start_polling destroy_base
  created kind b ((none, error), env) =
      (throw (exception (failure kind ++ error)), destroy_base b env)
  created kind b ((some h, error), env) =
      (ok (record b { handle = some h }), start_polling kind h env)

  -- Producer(config) and Consumer(config).
  unfoldable pub construct : Kind → ℕ → ℕ → Option (ℕ × ℕ) → rd.Env → Result Base × rd.Env
  unfolding construct_base prepare created
  construct kind this config default env =
      let (b, env₁) = construct_base this config default env in
      let (copy, env₂) = rd.conf_dup config (prepare kind b env₁) in
      created kind b (rd.kafka_new kind copy env₂)

  unfoldable pub finish : ℤ → Result Base × rd.Env → rd.Env
  unfolding set_destroy_flags destroy_base
  finish flags (ok b, env) = destroy_base (set_destroy_flags flags b) env
  finish flags (throw e, env) = env

  -- The object from its constructor to the destructor of its base, if it came to be.
  unfoldable pub live : Kind → ℕ → ℕ → Option (ℕ × ℕ) → ℤ → rd.Env → rd.Env
  unfolding construct finish
  live kind this config default flags env = finish flags (construct kind this config default env)
