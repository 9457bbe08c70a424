-- ===== src/Consumer.antt =====
-- A consumer of the group protocol: src/consumer.cpp. librdkafka's client is a parameter.
pub mod Rebalance
pub mod Offsets
pub mod Reading
mod Tests
use cppkafka.Prelude.{ℕ, Bool, true, false, Option, none, some, List, [], ◌∷◌, ◌++◌, if◌then◌else◌}
use cppkafka.Prelude.Int.{ℤ}
use cppkafka.Prelude.Bytes.{Bytes}
use cppkafka.Errors.{
  RespErr, no_error, assign_partitions, revoke_partitions, resp_eq, Result, ok, throw, check_error,
  then_run,
}
use cppkafka.Message.{Message}
use cppkafka.TopicPartition.{TopicPartition, Constants, of_topic}
use cppkafka.TopicPartitionList.{Element, to_handle, of_handle, check_list}

-- The calls of librdkafka: each returns its error code; a call that is given a list may set the
-- elements' offsets and errors.
pub record Client : Type 1 where
  pub Env : Type 0
  pub subscribe : List Element → Env → RespErr × Env
  pub unsubscribe : Env → RespErr × Env
  pub assign : List Element → Env → (RespErr × List Element) × Env
  pub unassign : Env → RespErr × Env
  pub commit_list : List Element → Bool → Env → (RespErr × List Element) × Env
  pub commit_all : Bool → Env → RespErr × Env
  pub commit_message : Message → Bool → Env → RespErr × Env
  pub committed : List Element → ℤ → Env → (RespErr × List Element) × Env
  pub position : List Element → Env → (RespErr × List Element) × Env
  pub offsets_store : List Element → Env → (RespErr × List Element) × Env
  pub assignment : Env → (RespErr × List Element) × Env
  pub subscription : Env → (RespErr × List Element) × Env
  pub close : Env → RespErr × Env
  pub pause : List Element → Env → (RespErr × List Element) × Env
  pub resume : List Element → Env → (RespErr × List Element) × Env
  pub watermark_offsets : Bytes → ℤ → Env → (RespErr × (ℤ × ℤ)) × Env
  pub offset_store : Message → Env → RespErr × Env
  pub consumer_poll : ℤ → Env → Option Message × Env
  -- `none` is the result -1
  pub consume_batch : ℕ → ℤ → Env → Option (List Message) × Env
  pub last_error : Env → RespErr

-- What a rebalance did, in order: the application's callbacks, and the calls of `rd_kafka_assign`.
pub data Event : Type 0 where
  on_assignment on_revocation : List TopicPartition → Event
  on_rebalance_error : RespErr → Event
  assigned : List TopicPartition → Event
  unassigned : Event

topics_of : List TopicPartition → List Bytes
topics_of [] = []
topics_of (p ∷ ps) = p.topic ∷ topics_of ps

all_topics : Constants → List Bytes → List TopicPartition
all_topics k [] = []
all_topics k (t ∷ ts) = of_topic k t ∷ all_topics k ts

-- What a getter makes of librdkafka's answer: the list, or the error.
unfoldable pub checked : RespErr × List Element → Result (List TopicPartition)
checked (e, es) = elim (check_list e es) [ ok _ ↦ ok (of_handle es) | throw x ↦ throw x ]

module _ (client : Client) where
  -- The members of `Consumer`: its callbacks, of which the first may change the list, and the handle.
  pub record Consumer : Type 0 where
    pub env : client.Env
    pub assignment_callback : Option (List TopicPartition → List TopicPartition)
    pub has_revocation_callback : Bool
    pub has_rebalance_error_callback : Bool
    pub events : List Event

  unfoldable pub set_env : client.Env → Consumer → Consumer
  set_env env c = record c { env = env }

  unfoldable pub log : Event → Consumer → Consumer
  log e c = record c { events = c.events ++ e ∷ [] }

  abbrev pub Run : Type 0 → Type 0
  Run A = Consumer → Result A × Consumer

  -- A call that returns an error code.
  unfoldable pub call : (client.Env → RespErr × client.Env) → Run (Unit {0})
  unfolding set_env
  call f c = let (e, env) = f c.env in (check_error e, set_env env c)

  -- A call that returns an error code and is given a list.
  unfoldable pub call_list : (client.Env → (RespErr × List Element) × client.Env) → Run (Unit {0})
  unfolding set_env
  call_list f c = let ((e, es), env) = f c.env in (check_list e es, set_env env c)

  -- A call that returns an error code and a list.
  unfoldable pub call_getter :
      (client.Env → (RespErr × List Element) × client.Env) → Run (List TopicPartition)
  unfolding set_env
  call_getter f c = let (answer, env) = f c.env in (checked answer, set_env env c)

  -- `subscribe`.
  pub subscribe : Constants → List Bytes → Run (Unit {0})
  unfolding call all_topics
  subscribe k topics = call (client.subscribe (to_handle (all_topics k topics)))

  -- `unsubscribe`.
  pub unsubscribe : Run (Unit {0})
  unfolding call
  unsubscribe = call client.unsubscribe

  -- `assign`.
  unfoldable pub assign : List TopicPartition → Run (Unit {0})
  unfolding call_list log
  assign ps c = call_list (client.assign (to_handle ps)) (log (assigned ps) c)

  -- `unassign`.
  unfoldable pub unassign : Run (Unit {0})
  unfolding call log
  unassign c = call client.unassign (log unassigned c)

  -- `commit(topic_partitions, async)` behind the public overloads; a null pointer is `none`.
  unfoldable pub commit : Option (List TopicPartition) → Bool → Run (Unit {0})
  unfolding call call_list
  commit none is_async = call (client.commit_all is_async)
  commit (some ps) is_async = call_list (client.commit_list (to_handle ps) is_async)

  -- `commit(msg, async)`.
  unfoldable pub commit_message : Message → Bool → Run (Unit {0})
  unfolding call
  commit_message m is_async = call (client.commit_message m is_async)

  -- `get_offsets_committed`.
  pub get_offsets_committed : List TopicPartition → ℤ → Run (List TopicPartition)
  unfolding call_getter
  get_offsets_committed ps timeout = call_getter (client.committed (to_handle ps) timeout)

  -- `get_offsets_position`.
  unfoldable pub get_offsets_position : List TopicPartition → Run (List TopicPartition)
  get_offsets_position ps = call_getter (client.position (to_handle ps))

  -- `store_offsets`.
  unfoldable pub store_offsets : List TopicPartition → Run (Unit {0})
  store_offsets ps = call_list (client.offsets_store (to_handle ps))

  unfoldable pub only_code :
      (RespErr × List Element) × client.Env → Result (List TopicPartition) × client.Env
  only_code ((e, es), env) =
      (elim (check_error e) [ ok _ ↦ ok (of_handle es) | throw x ↦ throw x ], env)

  -- `get_assignment`, which checks the code alone.
  unfoldable pub get_assignment : Run (List TopicPartition)
  unfolding only_code set_env
  get_assignment c = let (r, env) = only_code (client.assignment c.env) in (r, set_env env c)

  -- `get_subscription`: the topics.
  pub get_subscription : Run (List Bytes)
  unfolding only_code set_env topics_of
  get_subscription c =
      let (r, env) = only_code (client.subscription c.env) in
      (elim r [ ok ps ↦ ok (topics_of ps) | throw x ↦ throw x ], set_env env c)

  -- `store_consumed_offsets`.
  unfoldable pub store_consumed_offsets : Run (Unit {0})
  store_consumed_offsets c =
      then_run (get_assignment c)
        (λ ps c. then_run (get_offsets_position ps c) (λ qs. store_offsets qs))

  -- `close`.
  unfoldable pub close : Run (Unit {0})
  unfolding call
  close = call client.close

  unfoldable pub run_assignment :
      Option (List TopicPartition → List TopicPartition)
      → List TopicPartition
      → Run (List TopicPartition)
  unfolding log
  run_assignment none ps c = (ok ps, c)
  run_assignment (some f) ps c = (ok (f ps), log (on_assignment (f ps)) c)

  unfoldable pub log_if : Bool → Event → Consumer → Consumer
  unfolding log
  log_if set e c = if set then log e c else c

  -- The assignment branch of `handle_rebalance`.
  unfoldable pub handle_assignment :
      Option (List TopicPartition → List TopicPartition) → List TopicPartition → Run (Unit {0})
  unfolding run_assignment
  handle_assignment callback ps c = then_run (run_assignment callback ps c) (λ qs. assign qs)

  -- `handle_rebalance`; an exception of a callback is swallowed by its `CallbackInvoker`.
  unfoldable pub handle_rebalance : RespErr → List TopicPartition → Run (Unit {0})
  handle_rebalance e ps c =
      if resp_eq e assign_partitions
      then handle_assignment c.assignment_callback ps c
      else if resp_eq e revoke_partitions
      then unassign (log_if c.has_revocation_callback (on_revocation ps) c)
      else unassign (log_if c.has_rebalance_error_callback (on_rebalance_error e) c)
