-- ===== src/Consumer/Reading.antt =====
-- Pausing, committing, polling and the end of a consumer: src/consumer.cpp and the batches of
-- include/cppkafka/consumer.h.
use cppkafka.Prelude.{ℕ, Bool, true, false, Option, none, some, List, [], ◌∷◌, if◌then◌else◌}
use cppkafka.Prelude.Int.{ℤ}
use cppkafka.Errors.{RespErr, Result, ok, throw, handle_exception, check_error, then_run}
use cppkafka.Message.{Message}
use cppkafka.TopicPartition.{TopicPartition}
use cppkafka.TopicPartitionList.{to_handle}
use cppkafka.HandleBase.{as_int}
use cppkafka.Consumer.{
  Client, Consumer, Run, set_env, call, call_list, commit, commit_message, get_assignment, close,
}

-- Where the destructor reports that closing failed: to the error callback of the configuration, to
-- its log callback, or to the log of librdkafka.
pub data Reported : Type 0 where
  to_error_callback to_log_callback to_log : RespErr → Reported

module _ (client : Client) where
  -- `pause` and `resume`.
  unfoldable pub pause : Run client (Unit {0})
  unfolding call_list
  pause c =
      then_run (get_assignment client c) (λ ps. call_list client (client.pause (to_handle ps)))

  unfoldable pub resume : Run client (Unit {0})
  unfolding call_list
  resume c =
      then_run (get_assignment client c) (λ ps. call_list client (client.resume (to_handle ps)))

  -- The overloads of `commit` and `async_commit`.
  pub commit_current : Run client (Unit {0})
  commit_current = commit client none false

  pub async_commit_current : Run client (Unit {0})
  async_commit_current = commit client none true

  pub commit_one : Message → Run client (Unit {0})
  commit_one m = commit_message client m false

  pub async_commit_one : Message → Run client (Unit {0})
  async_commit_one m = commit_message client m true

  pub commit_list : List TopicPartition → Run client (Unit {0})
  commit_list ps = commit client (some ps) false

  pub async_commit_list : List TopicPartition → Run client (Unit {0})
  async_commit_list ps = commit client (some ps) true

  offsets_answer : RespErr × (ℤ × ℤ) → Result (ℤ × ℤ)
  offsets_answer (e, offsets) = elim (check_error e) [ ok _ ↦ ok offsets | throw x ↦ throw x ]

  -- `get_offsets`.
  pub get_offsets : TopicPartition → Run client (ℤ × ℤ)
  unfolding offsets_answer set_env
  get_offsets p c =
      let (a, env) = client.watermark_offsets p.topic p.partition c.env in
      (offsets_answer a, set_env client env c)

  -- `store_offset`.
  pub store_offset : Message → Run client (Unit {0})
  unfolding call
  store_offset m = call client (client.offset_store m)

  -- `poll(timeout)`.
  pub poll : ℤ → Consumer client → Option Message × Consumer client
  unfolding set_env as_int
  poll timeout c =
      let (m, env) = client.consumer_poll (as_int timeout) c.env in (m, set_env client env c)

  unfoldable pub batch_of : RespErr → Option (List Message) → Result (List Message)
  batch_of e none = elim (check_error e) [ ok _ ↦ ok [] | throw x ↦ throw x ]
  batch_of e (some ms) = ok ms

  -- `poll_batch(max_batch_size, timeout, alloc)`.
  unfoldable pub poll_batch : ℕ → ℤ → Run client (List Message)
  unfolding batch_of set_env
  poll_batch max_batch_size timeout c =
      let (batch, env) = client.consume_batch max_batch_size timeout c.env in
      (batch_of (client.last_error env) batch, set_env client env c)

  -- The destructor forgets the callbacks first.
  unfoldable pub forget_callbacks : Consumer client → Consumer client
  forget_callbacks c = record c {
    assignment_callback = none;
    has_revocation_callback = false;
    has_rebalance_error_callback = false;
  }

  unfoldable pub report : Bool → Bool → Result (Unit {0}) → List Reported
  report error_set log_set (throw (handle_exception e)) =
      (if error_set then to_error_callback e else if log_set then to_log_callback e else to_log e)
      ∷ []
  report error_set log_set _ = []

  -- `~Consumer`; the flags tell which callbacks the configuration has.
  unfoldable pub destroy : Bool → Bool → Consumer client → List Reported × Consumer client
  unfolding report
  destroy error_set log_set c =
      let (r, c₁) = close client (forget_callbacks c) in (report error_set log_set r, c₁)
