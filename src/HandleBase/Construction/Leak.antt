-- ===== src/HandleBase/Construction/Leak.antt =====
-- The configurations that are left when a producer or a consumer is gone.
use cppkafka.Prelude.{
  ℕ, ◌+◌, ◌≡◌, ◌∙◌, refl, ap, Option, none, some, arith, is_some, Option-cases, inl, inr,
  if◌then◌else◌,
}
use cppkafka.Prelude.Int.{ℤ}
use cppkafka.Prelude.Bytes.{Bytes}
use cppkafka.Errors.{Result, ok, throw}
use cppkafka.HandleBase.Construction.{
  Kind, producer, consumer, Rdkafka, Base, set_default, construct_base, prepare, start_polling,
  destroy_default, destroy_handle, destroy_base, created, construct, set_destroy_flags, finish,
  live,
}

-- How many copies of configurations were made, and how many configurations were destroyed or taken by
-- librdkafka, which takes the one that a handle is created from, where it creates it.
pub record RdkafkaLaws (rd : Rdkafka) : Type 0 where
  pub confs : rd.Env → ℕ × ℕ
  pub dups :
      (c : ℕ) (env : rd.Env) → confs (rd.conf_dup c env).1 ≡ ((confs env).0 + 1, (confs env).1)
  pub destroys :
      (c : ℕ) (env : rd.Env) → confs (rd.conf_destroy c env) ≡ ((confs env).0, (confs env).1 + 1)
  pub takes :
      (k : Kind) (c : ℕ) (env : rd.Env)
      → confs (rd.kafka_new k c env).1
        ≡ ((confs env).0, (confs env).1 + (if is_some (rd.kafka_new k c env).0.0 then 1 else 0))
  pub opaque : (c this : ℕ) (env : rd.Env) → confs (rd.conf_set_opaque c this env) ≡ confs env
  pub rebalance : (c : ℕ) (env : rd.Env) → confs (rd.conf_set_rebalance_cb c env) ≡ confs env
  pub default_topic :
      (c t : ℕ) (env : rd.Env) → confs (rd.conf_set_default_topic_conf c t env) ≡ confs env
  pub topic_opaque :
      (t this : ℕ) (env : rd.Env) → confs (rd.topic_conf_set_opaque t this env) ≡ confs env
  pub topic_dups : (t : ℕ) (env : rd.Env) → confs (rd.topic_conf_dup t env).1 ≡ confs env
  pub topic_destroys : (t : ℕ) (env : rd.Env) → confs (rd.topic_conf_destroy t env) ≡ confs env
  pub polls : (h : ℕ) (env : rd.Env) → confs (rd.poll_set_consumer h env) ≡ confs env
  pub handle_destroys :
      (h : ℕ) (flags : ℤ) (env : rd.Env) → confs (rd.destroy_flags h flags env) ≡ confs env

module _ (rd : Rdkafka) (laws : RdkafkaLaws rd) where
  set_default-confs : (b : Base) (env : rd.Env) → laws.confs (set_default rd b env) ≡ laws.confs env
  unfolding set_default
  set_default-confs b env = elim (Option-cases b.default_topic_config) [
    | inl e ↦ rw (e, set_default) refl
    | inr ((address, t), e) ↦
        rw (e, set_default)
          (laws.default_topic b.config _ _ ∙ laws.topic_dups t _ ∙ laws.topic_opaque t address env)
  ]

  prepare-confs :
      (k : Kind) (b : Base) (env : rd.Env) → laws.confs (prepare rd k b env) ≡ laws.confs env
  unfolding prepare
  prepare-confs producer b env = laws.opaque b.config b.this env
  prepare-confs consumer b env = laws.rebalance b.config _ ∙ laws.opaque b.config b.this env

  polling-confs :
      (k : Kind) (h : ℕ) (env : rd.Env) → laws.confs (start_polling rd k h env) ≡ laws.confs env
  unfolding start_polling
  polling-confs producer h env = refl
  polling-confs consumer h env = laws.polls h env

  default-confs : (b : Base) (env : rd.Env) → laws.confs (destroy_default rd b env) ≡ laws.confs env
  unfolding destroy_default
  default-confs b env = elim (Option-cases b.default_topic_config) [
    | inl e ↦ rw (e, destroy_default) refl
    | inr ((address, t), e) ↦ rw (e, destroy_default) (laws.topic_destroys t env)
  ]

  handle-confs : (b : Base) (env : rd.Env) → laws.confs (destroy_handle rd b env) ≡ laws.confs env
  unfolding destroy_handle
  handle-confs b env = elim (Option-cases b.handle) [
    | inl e ↦ rw (e, destroy_handle) refl
    | inr (h, e) ↦ rw (e, destroy_handle) (laws.handle_destroys h b.flags env)
  ]

  base-confs :
      (b : Base) (env : rd.Env)
      → laws.confs (destroy_base rd b env) ≡ ((laws.confs env).0, (laws.confs env).1 + 1)
  unfolding destroy_base
  base-confs b env =
      let same = default-confs b (destroy_handle rd b env) ∙ handle-confs b env in
      laws.destroys b.config _ ∙ ap (λ (n : ℕ × ℕ). (n.0, n.1 + 1)) same

  -- What a constructor that throws does not destroy.
  abbrev pub lost : Result Base → ℕ
  lost (ok b) = 0
  lost (throw e) = 1

  finish-created :
      (k : Kind) (b : Base) (flags : ℤ) (x : (Option ℕ × Bytes) × rd.Env)
      → (laws.confs (finish rd flags (created rd k b x))
          ≡ ((laws.confs x.1).0, (laws.confs x.1).1 + 1))
        × (lost (created rd k b x).0 ≡ (if is_some x.0.0 then 0 else 1))
  unfolding finish created set_destroy_flags
  finish-created k b flags ((none, error), env) = (base-confs b env, refl)
  finish-created k b flags ((some h, error), env) = (
    base-confs (set_destroy_flags flags (record b { handle = some h })) (start_polling rd k h env)
        ∙ ap (λ (n : ℕ × ℕ). (n.0, n.1 + 1)) (polling-confs k h env),
    refl,
  )

  -- A producer or a consumer from its constructor to the destructor of its base makes one copy of the
  -- configuration that it is given, which it destroys. The copy is taken by librdkafka where the
  -- handle is created; where it is not the constructor throws, and nothing destroys the copy.
  pub live-confs :
      (k : Kind) (this config : ℕ) (default : Option (ℕ × ℕ)) (flags : ℤ) (env : rd.Env)
      → let env' = live rd k this config default flags env in
        ((laws.confs env').0 ≡ (laws.confs env).0 + 1)
        × ((laws.confs env').1 + lost (construct rd k this config default env).0
            ≡ (laws.confs env).1 + 2)
  unfolding live construct construct_base
  live-confs k this config default flags env =
      let (b, env₁) = construct_base rd this config default env in
      let env₂ = prepare rd k b env₁ in
      let (copy, env₃) = rd.conf_dup config env₂ in
      let (rest, failed) = finish-created k b flags (rd.kafka_new k copy env₃) in
      ground (
        arith,
        rest,
        failed,
        laws.takes k copy env₃,
        laws.dups config env₂,
        prepare-confs k b env₁,
        set_default-confs b env,
      )
